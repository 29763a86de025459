-- ===== src/Tests.antt =====
-- Runs of the model at concrete inputs, and the theorems at inputs that meet their conditions.
mod Aof
mod Stream
mod Store
mod Recovery
mod Streams
mod Groups
mod Server
mod HyperLogLog
mod Parser
mod Kesp
