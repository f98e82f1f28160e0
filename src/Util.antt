-- ===== src/Util.antt =====
-- The modules of cornelich/util.
pub mod MathUtil
pub mod StopBit
pub mod BufferView
pub mod Cache
pub mod SpinLock
pub mod Thread
pub mod Streamer
pub mod TestHelpers
