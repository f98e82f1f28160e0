-- ===== src/VanillaIndex.antt =====
-- cornelich/vanilla_index.h, vanilla_index.cpp: the index files of a chronicle.
pub mod Ends
pub mod Slots
pub mod Mapped
pub mod Scan
pub mod LastIndex
pub mod ScanLaws
pub mod LastFile
pub mod SlotsRefine
pub mod Appends
pub mod Entered
pub mod Race
pub mod RaceSafety
