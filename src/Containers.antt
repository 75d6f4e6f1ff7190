-- ===== src/Containers.antt =====
-- The standard containers that the program keeps its state in, over keys with an equality test.
-- The program never walks an unordered container, so the order of entries is not modelled.
pub mod Dict
pub mod KeySet
