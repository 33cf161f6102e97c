-- ===== src/Tests.antt =====
-- Tests by evaluation, and the theorems at concrete inputs.
mod LeadingZeros
mod Bitpacking
mod HashSet
mod BitWeaving
mod Threads
mod Logical
mod Datagen
