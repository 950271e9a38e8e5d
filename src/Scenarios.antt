-- ===== src/Scenarios.antt =====
-- Runs of the task backend on small databases and an in-memory Redis server.
mod World
mod Lifecycle
mod System
mod Queue
mod Conversations
mod Tokens
mod Agent
mod DataAgent
mod Reports
