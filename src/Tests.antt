-- ===== src/Tests.antt =====
-- The theorems at concrete inputs, over a small platform.
pub mod Toy
pub mod Greedy
pub mod Wire
pub mod Files
pub mod Runs
pub mod Uploads
pub mod Answers
pub mod Removals
pub mod Connections
pub mod Posts
pub mod Logins
pub mod Mains
pub mod Deliveries
pub mod Watching
pub mod Rounds
pub mod Backups
pub mod Restores
pub mod Servers
