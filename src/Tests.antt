-- ===== src/Tests.antt =====
-- Concrete stores and states, and the examples that run the theorems on them.
mod Stores
mod Server
mod Client
mod Files
mod Keys
mod Sessions
mod Features
mod Pipelines
