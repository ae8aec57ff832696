-- ===== src/Limits.antt =====
-- Limits on use: the limiter of outgoing AI calls, the limiter of incoming requests, and the limits
-- on AI usage.
pub mod TokenBucket
pub mod HttpWindow
pub mod Usage
pub mod Tests
