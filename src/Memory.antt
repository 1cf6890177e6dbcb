-- ===== src/Memory.antt =====
-- memory/: the arena, the block pool, the agents' budgets and the manager that owns them. Addresses
-- and sizes are 64-bit numbers; the null pointer is 0.
pub mod Words
pub mod Arena
pub mod Pool
pub mod Budget
pub mod Manager
