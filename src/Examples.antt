-- ===== src/Examples.antt =====
-- Concrete runs of the operations: the theorems at stores like those of tests/test_queue.py.
mod Samples
mod Queues
mod Spools
mod Agents
mod Workers
mod Executors
mod Sources
mod Plans
