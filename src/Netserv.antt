-- ===== src/Netserv.antt =====
-- The package netserv: the peers, and the service that handles their messages one by one.
pub mod Types
pub mod Wire
pub mod Manager
pub mod Serving
