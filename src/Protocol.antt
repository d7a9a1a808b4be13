-- ===== src/Protocol.antt =====
-- internal/protocol: the envelope wire format and the event payloads that it carries.
pub mod Types
pub mod Space
pub mod Envelope
pub mod Json
pub mod Decode
pub mod Encode
