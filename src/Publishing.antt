-- ===== src/Publishing.antt =====
-- Publishing a landing page under an approval chain: who may approve a step, and the review of a
-- request.
pub mod Eligibility
pub mod NamedStories
pub mod Review
pub mod Tests
