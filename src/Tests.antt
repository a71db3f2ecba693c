-- ===== src/Tests.antt =====
-- The theorems at concrete records.
mod Samples
mod Tables
mod Roots
mod Checks
mod Files
mod Reading
mod Torn
