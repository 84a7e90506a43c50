-- ===== src/V2.antt =====
-- experimental/v2: how a connection of the second protocol version is opened, and which version a
-- router of both versions serves.
pub mod Initialization
pub mod Handshake
pub mod Pinned
pub mod Fields
pub mod Router
pub mod Negotiation
pub mod Rewriting
pub mod Fallback
pub mod Dispatch
pub mod Agent
