-- ===== src/Tests.antt =====
-- Concrete states of the program, and each property at one of them.
pub mod Data
mod Logs
mod Tables
pub mod Alternating
mod Threads
mod Bases
mod Chained
mod Undo
mod Wraps
mod Objects
mod Rings
mod Aside
mod Many
mod Queues
mod Maps
mod Arrays
