-- ===== src/Rpc.antt =====
-- pkg/src/af_rpc.c and af_rpc.h: the TLV encoding of parameters.
pub mod Memory
pub mod Types
pub mod Add
pub mod Get
pub mod Items
mod Tests
pub mod Params
