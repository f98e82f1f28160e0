-- ===== src/Samples.antt =====
-- cornelich_sample: the programs that show how clients use appenders and tailers.
pub mod Basic
pub mod Ping
pub mod Pong
