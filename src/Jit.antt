-- ===== src/Jit.antt =====
-- include/jit: the runtime profile of branches and the branch predictor of the virtual machine.
pub mod Profile
pub mod Registry
pub mod Predictor
pub mod Bytecode
pub mod Pgo
pub mod Optimizer
mod Tests
