-- ===== src/Shared.antt =====
-- The code of shared/.
pub mod Types
pub mod Message
pub mod View
pub mod Decimal
pub mod Platform
pub mod Tools
pub mod Dir
pub mod Chunks
