-- ===== src/RawDb.antt =====
-- core/rawdb: how blocks, headers, chain heads and unspent outputs lie in the database.
pub mod Schema
pub mod Accessors
pub mod Ancestor
pub mod Utxos
pub mod Blocks
