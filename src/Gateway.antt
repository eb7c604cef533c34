-- ===== src/Gateway.antt =====
-- The render gateway, src/services/render_gateway.rs: what one request is answered with.
-- `Value` stands for `serde_json::Value`. Spans, logs and timing are left out.
pub mod Headers
pub mod Stores
pub mod Objects
pub mod Chain
pub mod Handler
pub mod Answers
pub mod Resolved
pub mod Dispatch
pub mod Targets
