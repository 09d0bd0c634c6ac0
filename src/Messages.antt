-- ===== src/Messages.antt =====
-- The protobuf messages of the crate `ibc_proto` that the source builds, stores and signs, and
-- `proto_encode` and `AnyConvert` of solo-machine-core/src/proto.rs over them.
mod Client
mod Handshake
mod Transfer
mod Tx
pub use Client.*
pub use Handshake.*
pub use Transfer.*
pub use Tx.*
