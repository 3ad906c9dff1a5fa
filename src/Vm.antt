-- ===== src/Vm.antt =====
-- The virtual machine: its values and the instructions that work on the operand stack alone.
pub mod Value
pub mod Ops
pub mod Straight
