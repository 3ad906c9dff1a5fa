-- ===== src/Mir.antt =====
-- include/native/mir.hpp and include/native/mir_optimizer.hpp: the intermediate code of the native
-- backend, and the runtime operations of native/runtime/munx_value.c that the emitted C calls.
pub mod Instr
pub mod Runtime
pub mod Fold
pub mod Thread
pub mod Dce
pub mod Optimize
mod Tests
