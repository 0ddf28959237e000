-- ===== src/Server.antt =====
-- The whole server: requests from their arrival to the answer, in any order, and what they do to the databases.
pub mod Defs
pub mod Dispatch
pub mod Steps
pub mod Refines
pub mod Runs
pub mod Access
pub mod Invariants
pub mod Growth
pub mod Threads
pub mod Rates
pub mod Lasting
