-- ===== src/Platform.antt =====
-- The platform services under firmware/src/platform.
pub mod BootConfig
pub mod ServiceLoad
mod Tests
