-- ===== src/Delivery.antt =====
-- From `finish` of an appender (cornelich/excerpt_appender.cpp) to `index` of a tailer
-- (cornelich/excerpt_tailer.cpp), over the files and the state that they share.
pub mod Stored
pub mod Reads
pub mod Fields
