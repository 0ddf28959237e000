-- ===== src/Views.antt =====
-- The handlers of src/views. Each takes its services, the two clock readings that a rate limited
-- handler makes, the outcome of parsing the body, the user of the request's context, and the
-- state that it works on, and gives its outcome with the new state.
pub mod Limited
pub mod Gated
pub mod Tasks
pub mod Goals
pub mod Users
pub mod Hello
