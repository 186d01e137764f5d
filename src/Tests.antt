-- ===== src/Tests.antt =====
-- Runs on concrete inputs: values of the kernel's functions, and its theorems applied.
pub mod Strings
pub mod Searches
pub mod Numbers
pub mod Pages
pub mod Pointers
pub mod Heap
pub mod Histories
pub mod Tables
pub mod Mappings
pub mod Growth
pub mod Fresh
pub mod Vectors
pub mod Devices
pub mod Instructions
pub mod Ranges
pub mod Forks
pub mod Messages
pub mod Calls
