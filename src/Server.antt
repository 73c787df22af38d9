-- ===== src/Server.antt =====
-- The code of server/.
pub mod Resource
pub mod User
pub mod Streams
pub mod Logger
pub mod Queue
pub mod Session
pub mod Handler
pub mod Delivery
pub mod Connection
pub mod Acceptor
