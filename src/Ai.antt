-- ===== src/Ai.antt =====
-- Calls of AI providers: failover between two providers behind a circuit breaker.
pub mod Breaker
pub mod Tests
