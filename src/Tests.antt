-- ===== src/Tests.antt =====
-- Runs of the model on concrete inputs.
pub mod Samples
pub mod Codecs
pub mod Keys
pub mod Builder
pub mod Service
pub mod Worlds
pub mod Fronts
pub mod Listings
pub mod Signers
