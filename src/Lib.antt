-- ===== src/Lib.antt =====
-- An IBC solo machine: a program that stands for a chain in the inter-blockchain communication
-- protocol. It signs what a chain would prove, sends the messages of the handshakes and of token
-- transfers to a Tendermint chain, and keeps its own side of the clients, connections and channels in
-- a database. Modelled are the crate solo-machine-core, the gRPC server and the command line.
--
-- The parts, from the bottom up:
--   Base, Decimal: texts as lists of code points, results with an error or a panic, lists, integers
--     and decimal numbers.
--   Height, Identifier, Path: solo-machine-core/src/ibc/core/ics02_client/height.rs and
--     solo-machine-core/src/ibc/core/ics24_host/{identifier, path}.rs.
--   BitArray, PublicKey: solo-machine-core/src/cosmos/{bit_array, crypto}.rs and crypto/multisig.rs.
--   Messages, Chain, Event, Database: the records. Messages are those of the protocol buffers; a
--     Message of the model is a message that `proto_encode` is called on.
--   Env, Exec: what the program calls and does not implement is the record Env. Code is a function
--     from a World, which has the committed database, the one that the open transaction sees, and the
--     calls made so far, to a result and a World. `begin` starts from the committed database; a
--     transaction that is not committed is dropped by the next `begin`.
--   Store: solo-machine-core/src/model/{chain, ibc, operation}.rs, the statements on the tables.
--   Builder: solo-machine-core/src/transaction_builder.rs, with the ics23 proof specifications and
--     packet.rs. `msg_…` of a handshake is `…_message`. A function that takes `&mut Chain` returns the
--     new chain.
--   Service: solo-machine-core/src/service/{ibc_service, chain_service}.rs. `mint` and `burn` are
--     mint_tokens and burn_tokens.
--   Server: solo-machine/src/server/{ibc, chain}.rs. A request is read, a service is called, and its
--     error is a status. Crates is the record of what these and the command line take from crates.
--   Cli: solo-machine/src/{command, output, event}.rs, command/{chain, ibc}.rs (Cli/Chains and
--     Cli/Transfers) and event/cli_event_handler.rs. Code runs against a Session, a World with the
--     items that are printed.
--   MnemonicSigner: signers/mnemonic-signer/src/lib.rs, over the record Wallet.
--   Invariant: histories of the two services, in which their operations run one after another, in any
--     order, and a transaction that is still open at the end of a call is dropped.
--   Tests: runs and instances.
-- Cli and Server call Service; Service calls Builder and Store; Builder calls Store; all of them run
-- in Exec. An operation is the
-- code between `begin` and `commit`, its body, and the two.
--
-- Numbers are natural numbers: `u32` and `u64` are bounded where they are parsed, read from a row or
-- added to. Loops are structural recursion on a list or on a number of rounds. Only
-- PublicKey/Decode has fuel, for keys nested in keys: the number of keys is enough.
-- A relation between the world before and after is a Frame (Exec/Keeps). The records Reading, Writing,
-- Detailing and Committing (Exec/Frames, Store/Frames) say that the calls and the statements keep it;
-- {Store, Builder, Service}/Frames and Service/Operations then have one rule for each function, for
-- every frame. Exec/Atomic and Exec/Runs say whether code commits, and what a run that returns says of
-- its parts.
--
-- Not modelled: the database engine, the network, hashing, encodings and the clock, which are fields
-- of Env, Crates or Crypto; parsing of command lines; the feature `ethermint`; the
-- loading of signers and event handlers from shared libraries, the other signers and the logger;
-- what event handlers print while a command runs; styles and colours; the texts of errors and of
-- warnings.
pub mod Base
pub mod Decimal
pub mod Height
pub mod Identifier
pub mod Path
pub mod BitArray
pub mod PublicKey
pub mod Messages
pub mod Chain
pub mod Event
pub mod Env
pub mod Crates
pub mod Database
pub mod Exec
pub mod Store
pub mod Builder
pub mod Service
pub mod Server
pub mod MnemonicSigner
pub mod Cli
pub mod Invariant
pub mod Tests
