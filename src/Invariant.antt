-- ===== src/Invariant.antt =====
-- Histories of the two services: the constraints of the tables, and what becomes of the rows.
pub mod Rows
pub mod Tables
pub mod Statements
pub mod Worlds
pub mod History
pub mod Details
pub mod Channels
pub mod Registered
