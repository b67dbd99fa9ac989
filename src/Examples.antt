-- ===== src/Examples.antt =====
-- Concrete libraries, requests and stores, and each theorem at them.
mod Tokens
mod Buckets
mod Json
mod Stores
mod Requests
mod Security
mod Pipeline
mod Answers
mod Working
mod Interleavings
mod Tasks
mod Processes
mod Persistence
mod Settings
