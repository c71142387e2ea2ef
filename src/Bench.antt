-- ===== src/Bench.antt =====
-- bench/src: the benchmarks of interrupts between two processors.
pub mod Ipi
