-- ===== src/Types.antt =====
-- core/types: the values that blocks and transactions are made of, and the libraries that hash
-- and encode them, which stand as the parameter `External`.
pub mod Utxo
pub mod Transaction
pub mod Block
pub mod External
pub mod Bloom
