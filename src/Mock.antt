-- ===== src/Mock.antt =====
-- The mock server, H2Server*.h: configuration, request matching, and the responses.
pub mod Json
pub mod Config
pub mod Message
pub mod Rule
pub mod Request
pub mod Argument
pub mod Response
pub mod Group
pub mod Services
