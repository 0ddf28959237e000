-- ===== src/Storage.antt =====
-- The in-memory storages: src/tasks_storage.hpp, src/users_storage.hpp and src/goals_storage.hpp.
-- A method holds the storage's mutex from its first line to its last, so it is one step of the state.
pub mod Status
pub mod Tasks
pub mod Users
pub mod Goals
pub mod Counter
pub mod Ids
