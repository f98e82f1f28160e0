-- ===== src/VanillaData.antt =====
-- cornelich/vanilla_data.h, vanilla_data.cpp: the data files of a chronicle.
pub mod Numbers
pub mod Fresh
pub mod Mapped
