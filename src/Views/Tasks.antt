-- ===== src/Views/Tasks.antt =====
-- The handlers of src/views/tasks: create.cpp, list.cpp and update.cpp.
pub mod Create
pub mod List
pub mod Update
pub mod Stores
pub mod Visible
pub mod Answers
pub mod Statuses
