-- ===== src/Http.antt =====
-- hub/server.py: the HTTP/1.1 server, from the bytes of a connection to those of its answers.
pub mod Reader
pub mod Hex
pub mod Chunks
pub mod Head
pub mod Routes
pub mod Connection
