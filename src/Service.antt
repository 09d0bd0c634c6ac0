-- ===== src/Service.antt =====
-- solo-machine-core/src/service/ibc_service.rs: the operations of `IbcService`.
pub mod Response
pub mod Packets
pub mod Client
pub mod Connection
pub mod Channel
pub mod Connect
pub mod Close
pub mod Transfer
pub mod Signer
pub mod Frames
pub mod Operations
pub mod Balance
