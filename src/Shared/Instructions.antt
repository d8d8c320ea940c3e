-- ===== src/Shared/Instructions.antt =====
-- lib/src/instructions/mod.rs: the arguments of the instructions, one child for each program.
pub mod Bridge
pub mod Commission
pub mod Upgrade
