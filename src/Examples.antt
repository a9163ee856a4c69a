-- ===== src/Examples.antt =====
-- Concrete runs of the modelled code: tests, and one use of each theorem.
mod Sequences
mod Partials
mod Queues
mod Filters
mod Types
mod Captures
mod Rules
