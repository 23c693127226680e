-- ===== src/Localnet.antt =====
-- tests/localnet/src: the client that reads the escrow's accounts and builds the buy.
pub mod PoolDecode
pub mod CompleteBuy
