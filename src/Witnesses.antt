-- ===== src/Witnesses.antt =====
-- Concrete runs of the models: each theorem that is claimed of the program, applied at an input.
mod Runs
mod Database
mod Host
mod Scheduling
mod States
mod Shards
mod Wire
mod Engine
mod Graphs
mod Values
mod Programs
