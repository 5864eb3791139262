-- ===== src/Fills.antt =====
-- The relayer's partial fills: the Merkle tree of an order's secrets, relayer/src/merkle-tree.ts, and
-- the manager of the fills, relayer/src/partial-fills.ts. Amounts are natural numbers, for the decimal
-- texts of the source; `combine` is keccak256 of two hashes put together.
pub mod Merkle
pub mod Manager
