-- ===== src/Tests.antt =====
-- Concrete services, and runs of the program on them.
mod Memory
mod Tasks
mod Goals
mod Users
mod World
mod TaskRuns
mod LimitRuns
mod StorageRuns
mod ServiceRuns
mod FlowRuns
mod AnswerRuns
mod Server
mod ServerRuns
mod LastingRuns
