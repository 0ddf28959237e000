-- ===== src/Views/Users.antt =====
-- The handlers of src/views/users: signup.cpp, login.cpp and search.cpp.
pub mod Signup
pub mod Login
pub mod Search
pub mod Laws
pub mod Total
pub mod Histories
