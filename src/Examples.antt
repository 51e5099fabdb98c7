-- ===== src/Examples.antt =====
-- The theorems at concrete inputs, with whole numbers for the program's numbers.
pub mod Data
pub mod Live
pub mod Heating
pub mod Panels
pub mod Pictures
pub mod Pages
pub mod Cards
pub mod Whole
pub mod Tables
