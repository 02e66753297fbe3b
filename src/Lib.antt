-- ===== src/Lib.antt =====
-- A verification library for the core of a Plasma chain node: blocks and transactions of unspent
-- outputs, their validation, and their storage.
--
-- The parts, the files that model them, and how they meet:
--   * Prelude: tests on numbers, lists by native numbers, integers (`big.Int`), and `Outcome`,
--     what a Go call comes to: a value, an error, or a panic. Bytes: byte strings and the
--     big-endian encodings of numbers; Bytes/RoundTrip has their laws.
--   * Types: core/types. Types/Utxo, Types/Transaction and Types/Block have the data and their
--     methods; Types/External is the record of the libraries they call (Keccak, RLP, the trie, the
--     curve), a parameter. Types/Transaction/Remove is about `Transactions.Remove`.
--   * Store: store/interfaces.go. Store/Memory is store/memory_database.go; Store/LevelDb is
--     store/database.go over LevelDB, a parameter with its documented laws; Store/Laws is the
--     interface by which clients know a database, and Store/LevelDb/Refines proves it.
--   * RawDb: core/rawdb. RawDb/Schema has the keys and RawDb/Accessors the reads and writes.
--   * UtxoSet: core/utxo_set.go. TxValidator: core/tx_validator.go. BlockValidator:
--     core/block_validator.go, which calls the former on each transaction.
--   * HeaderChain: core/headerchain.go; HeaderChain/Import has the batches of headers and
--     HeaderChain/Write is WriteHeader. Chain: core/blockchain.go, which holds a header chain;
--     Chain/Import has insertChain, Chain/Lookup the bodies and the export. Genesis:
--     core/genesis.go.
--   * Operator: core/operator.go, with its loops and `merkleProof` in Operator/Loop and its
--     handlers of events in Operator/Deposits, and Validator: core/validator.go, which write
--     blocks to a chain in a transaction of the database.
--   * Merkle: core/merkle.go, trees over the hashes of a block. TxPool: core/tx_pool.go, with
--     its `reset` in TxPool/Reset. TxJournal: core/tx_journal.go, the file behind the pool.
--     Signing: core/types/transaction_signing.go. SenderCacher: core/tx_cacher.go. Types/Bloom:
--     core/types/bloom9.go.
--   * RootChain: core/rootchain.go; RootChain/Events is its event loop, which calls the
--     operator's handlers and writes to the same database, and RootChain/Contract the calls of the
--     contract, with network/httphandlers/action.go. Peers: network/p2p.go; Peers/Broadcast,
--     Peers/Blocks and Peers/Requests are messages and the handlers of network/p2phandlers.
--   * Ancestors: the lines of parents that TxPool/Reset and RawDb/Ancestor walk over.
--   * Tests: concrete data; the modules below it apply the theorems to that data.
--
-- State is passed explicitly, a method is a function from the old state to its result and the new
-- state, and a lock makes a method one step. A `uint64` is a number with its wrap-around written
-- out. Loops are structural recursion over their lists or counters. Fuel stands in seven:
-- `build_tree` has the number of hashes, which is enough because each half is shorter; `pop_loop`
-- the size of the set, of which each step takes one; `download_loop` the count of numbers up to the
-- maximum; `find_common_ancestor` more than both numbers, which fall by one; `relink` more than the
-- parent's number, which falls likewise; the loops of `reset` more than both numbers; and
-- `cache_loop` the number of transactions. Caches, the validator that a chain calls, the signer,
-- the clock, the operating system and the contract's client are parameters.
--
-- Not modelled: goroutines, channels, logging and metrics; JSON and RLP, which stand in
-- Types/External; the pool's own loop, which is never started; the transport between peers and the
-- client of the contract, which are parameters; the node, the commands and the contract binding;
-- Rollback, which may leave a nil header as the head.
pub mod Prelude
pub mod Bytes
pub mod Types
pub mod Store
pub mod RawDb
pub mod HeaderChain
pub mod Chain
pub mod UtxoSet
pub mod Operator
pub mod Validator
pub mod Merkle
pub mod TxPool
pub mod TxJournal
pub mod SenderCacher
pub mod Tests
pub mod Signing
pub mod Peers
pub mod Genesis
pub mod RootChain
pub mod TxValidator
pub mod Ancestors
pub mod BlockValidator
