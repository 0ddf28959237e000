-- ===== src/Views/Goals.antt =====
-- The handlers of src/views/goals: create.cpp and list.cpp.
pub mod Create
pub mod List
pub mod Laws
