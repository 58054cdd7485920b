-- ===== src/Redis.antt =====
-- redis_checkpoint_store.py: the actions and runs kept as JSON texts in one Redis database. A method
-- holds its lock from the first read to the last write, so it is one step; lock timeouts are not
-- modelled.
pub mod Database
pub mod Keys
pub mod ActionStore
pub mod RunStore
pub mod ActionCases
pub mod Refines
pub mod Collision
mod Serial
mod Tests
