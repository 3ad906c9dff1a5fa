-- ===== src/Lib.antt =====
-- munx: a model of parts of the munx compiler and virtual machine, and what holds of it.
--
-- The program compiles a language to bytecode, which a virtual machine interprets or compiles just
-- in time, or to native code. Processes exchange messages through a hub that a daemon runs. Eight
-- parts are modelled.
--
-- Mir is the native backend's intermediate code. Mir/Instr is include/native/mir.hpp. Mir/Fold,
-- Mir/Thread, Mir/Dce and Mir/Optimize are the passes of include/native/mir_optimizer.hpp:
-- `const_fold_function`, `jump_thread_function`, `dce_function` and `optimize_mir`, each loop a
-- function of its own. Mir/Runtime and Mir/Runtime/Ops are the operators of
-- native/runtime/munx_value.c that the C of include/native/custom/c_emitter.hpp calls; they say
-- what code means. An instruction is named by its index. `none` is an abort, or the undefined
-- behaviour of int64_t. Doubles and the printing of numbers are the parameter `Host`.
--
-- Jit is the runtime feedback of the virtual machine. Jit/Profile and Jit/Registry are
-- include/jit/execution_profile.hpp, with 32-bit counters that wrap, and the hash maps of a profile
-- as lists of entries; of `profile_registry` only the keys, as the bytes they span. Jit/Predictor is
-- include/jit/branch_predictor.hpp, with its tables as functions of an index that the code always
-- masks to their size.
--
-- Jit/Bytecode is the cursor over bytecode of include/jit/bytecode_utils.hpp, with the instructions
-- of include/Opcode.hpp, and Jit/Pgo the passes of include/jit/pgo_optimizer.hpp. An abort of a
-- read past the code is `none`, and `stopped` in a pass.
--
-- Jit/Optimizer is include/jit/bytecode_optimizer.hpp: the loop that folds constants, as one
-- function on what is pending and written so far for each case of the loop, and in
-- Jit/Optimizer/Retarget the loop that moves the targets of jumps. Jit/Optimizer/Meaning, Reached,
-- Operators, Sound and Equivalence compare the first with the virtual machine, and
-- Retarget/Straight the whole; Jit/Bytecode/Again, Whole, Words and Fetched are about reading what
-- was written.
--
-- Vm is the virtual machine: the values and operators of include/vm_value.hpp and include/vm.hpp,
-- and in Vm/Straight `execute_interpret` on code without jumps. Doubles, objects and the
-- instructions that do more than change the operand stack are the parameter `Host`. `none` is an
-- error that the machine throws.
--
-- Format is parts of the .mxb image: Format/Strings the table of include/bytecode_compiler.hpp in
-- which texts are interned, and Format/DebugMap the maps from bytecode to source that
-- include/bytecode_compiler.hpp writes and include/vm.hpp reads and searches.
--
-- PipeHub is the message hub. PipeHub/Protocol is include/pipe_hub_protocol.hpp: the encoders, with
-- the thread's error flag in the buffer, and the reader, which reads memory past the end of a
-- truncated message as the code does. PipeHub/Channel and PipeHub/Daemon are
-- include/pipe_hub_daemon.hpp: a step takes the daemon's state and gives the new state and a
-- result, or `thrown` for `at` of no client, or `undefined` for the use of a dangling reference.
-- Deliver, Attach, Handshake and Input below PipeHub/Daemon are routing, attachment, the peers'
-- handshake, and framing with dispatch; Close and Bounds hold proofs about them. The transport is
-- `accepts`, which takes or refuses each write.
--
-- Lexer is include/lexer.hpp with include/token.hpp and include/keywords.hpp (Lexer/Words): a
-- cursor holds what is left of the source, the place, and the errors that `fail` has reported,
-- since `fail` returns. Lexer/Scan has `next_token` and `tokenize`; Lexer/Gaps and
-- Lexer/Spelled say of the text alone what trivia and tokens are; the other files below Lexer hold
-- proofs.
--
-- Json is the parser of include/json.hpp (Json, Json/Number, Json/Value), whose state is what is
-- left of the text, the offset and the first failure, and the writer of
-- include/analyze/json_util.hpp (Json/Escape). `strtod` is a parameter. Json/Kinds is
-- `require_kind` and `field_required`, with what is known of doubles as a parameter.
--
-- Errors is include/errors.hpp: the context that collects a compilation's reports. `std::to_string`
-- is a parameter.
--
-- Loops are recursion on the list they run over, or on a number of rounds. `resolve` has the 32
-- rounds of its own guard. `used_values` has one round more than there are arguments to add.
-- Draining a backlog has one round more than its length, since each round takes a payload. Reading
-- frames has two rounds more than there are bytes, since each round takes the four bytes of a
-- header but perhaps the first. `tokenize` and `parse` take the number of rounds, and are `none`
-- where it does not do; the loops inside the lexer and those over a JSON string have as many as
-- there are characters. The passes of Jit/Pgo take the number of rounds too, and are `unfinished`
-- where it does not do; a type operand is read to as many levels as there are bytes left, since
-- each level takes one. The optimizer's loops have one round more than there are bytes, since each
-- takes an instruction. The search of a debug map has one round more than there are entries.
--
-- Not modelled: the parser, type checker, bytecode compiler, the interpreter's jumps, calls and
-- built-in functions, and code generators, for their size; sockets, files, threads, the poll loop
-- and the environment's switches, which are input and output; allocation failure.
pub mod Prelude
pub mod Mir
pub mod Jit
pub mod PipeHub
pub mod Lexer
pub mod Json
pub mod Errors
pub mod Vm
pub mod Format
