-- ===== src/Services.antt =====
-- What the program uses and does not implement, each a record of operations with the documented laws that
-- the proofs rely on: the PostgreSQL tables, the Mongo collection, and the tokens of jwt-cpp.
pub mod TasksTable
pub mod UsersTable
pub mod GoalsCollection
pub mod Tokens
