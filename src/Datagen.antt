-- ===== src/Datagen.antt =====
-- src/experiments/BenchmarkFramework/datagen: generators of random values and of test data.
pub mod Distribution
pub mod Bounds
pub mod BitWidth
pub mod Generator
