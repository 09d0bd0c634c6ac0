-- ===== src/Store.antt =====
-- solo-machine-core/src/model: the statements on the four tables.
pub mod Insertions
pub mod Query
pub mod Order
pub mod Chains
pub mod ChainKeys
pub mod IbcData
pub mod Operations
pub mod Frames
pub mod Kept
