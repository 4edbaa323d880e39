-- ===== src/Uid.antt =====
-- server/store/types/uid.go: the ids of records, the texts for them, the names of P2P topics, and
-- slices of ids in ascending order.
pub mod Base64
pub mod Words
pub mod Text
pub mod Peers
pub mod Slice
