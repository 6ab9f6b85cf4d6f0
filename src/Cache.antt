-- ===== src/Cache.antt =====
-- pypto_serving/serving/memory/kv_cache.py: the physical KV-cache blocks.
pub mod Queue
pub mod Hashes
pub mod Pool
pub mod Groups
pub mod Manager
