-- ===== src/Ipc.antt =====
-- pkg/src/af_ipc_common.c, af_ipc_common.h and af_ipc_prv.h: sequence numbers, pending requests,
-- sending and receiving, common to servers and clients.
pub mod SeqNum
pub mod Requests
pub mod Send
pub mod Receive
pub mod Table
mod Tests
