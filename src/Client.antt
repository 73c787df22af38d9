-- ===== src/Client.antt =====
-- The code of client/.
pub mod Resource
pub mod Replies
pub mod Incoming
pub mod Retrieve
pub mod Posting
pub mod Login
pub mod Tasks
pub mod Watcher
pub mod Sync
pub mod Listing
pub mod Main
pub mod Rounds
