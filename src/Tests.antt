-- ===== src/Tests.antt =====
-- Runs of the definitions at concrete inputs, and the theorems at inputs that meet their hypotheses.
mod Sketches
mod Sorting
mod Arenas
mod Pages
mod Heaps
mod Varlens
mod Vectors
mod Integers
mod Expressions
mod Executors
mod Optimizer
mod Schemas
mod Strings
mod Tuples
