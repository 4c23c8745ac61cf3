-- ===== src/Tools.antt =====
-- The command line tools pkg/src/ipc_send.c and pkg/src/ipc_wait.c: a request from the arguments, and
-- the text of a reply.
pub mod Text
pub mod Format
pub mod Parser
pub mod Arguments
pub mod Blocks
pub mod Deliver
pub mod Print
pub mod Process
pub mod Send
pub mod Wait
mod Tests
