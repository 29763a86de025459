-- ===== src/Server.antt =====
-- kedis_python/server.py: what a connection keeps between its commands.
pub mod Transaction
pub mod Sent
pub mod Faithful
pub mod Blocks
