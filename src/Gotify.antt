-- ===== src/Gotify.antt =====
-- internal/gotifycompat: the message history, its deletion log and the live stream.
pub mod Value
pub mod Model
pub mod Memory
pub mod Bolt
pub mod Hub
pub mod Service
pub mod Token
pub mod Params
pub mod Publish
pub mod Route
