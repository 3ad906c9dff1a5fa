-- ===== src/PipeHub.antt =====
-- include/pipe_hub_protocol.hpp and include/pipe_hub_daemon.hpp: the wire protocol of the pipe hub and
-- the process that routes messages between its clients.
pub mod Protocol
pub mod Channel
pub mod Daemon
mod Tests
