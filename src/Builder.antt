-- ===== src/Builder.antt =====
-- solo-machine-core/src/transaction_builder.rs: the transactions that are broadcast. A function
-- that takes `&mut Chain` returns the new chain beside its result.
pub mod Tx
pub mod Proofs
pub mod Client
pub mod Connection
pub mod Channel
pub mod Packet
pub mod Sequence
pub mod Signing
pub mod Frames
