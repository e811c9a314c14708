-- ===== src/Storage.antt =====
-- astacus/common/storage.py: what the JSON and the hexdigest half of a storage promise, as
-- interfaces. `Caching` puts a cache in front of a JSON storage (astacus/common/cachingjsonstorage.py).
-- `Memory` keeps items in memory, for examples. Encoded data is an abstract type.
pub mod Interface
pub mod Memory
pub mod Caching
mod Tests
pub use Interface.*
