-- ===== src/Tests.antt =====
-- The theorems at concrete inputs.
mod Utilities
mod Regions
mod Directories
mod Excerpts
mod Delivery
mod Ending
mod Publishing
mod Tailing
mod Dates
mod Clients
mod Searching
