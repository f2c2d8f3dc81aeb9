-- ===== src/Rest.antt =====
-- The REST service (rest/): its handlers over the wallet, and the server that calls them.
pub mod Service
pub mod Server
pub mod Client
pub mod Json
