-- ===== src/Utils.antt =====
-- The package utils: event words, record keys, the worker pool, the ABI table, number helpers.
pub mod Words
pub mod Seq
pub mod Pool
pub mod Math
