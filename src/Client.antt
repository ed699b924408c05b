-- ===== src/Client.antt =====
-- internal/client: the HTTP clients of the sibling services.
pub mod Wire
pub mod Http
pub mod Calls
mod Tests
