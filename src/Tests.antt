-- ===== src/Tests.antt =====
-- Tests of the definitions on concrete inputs, and the theorems applied to concrete inputs.
pub mod Machine
pub mod Programs
pub mod Tables
pub mod Objects
pub mod Sources
pub mod Runtimes
pub mod Archives
