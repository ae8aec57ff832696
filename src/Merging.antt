-- ===== src/Merging.antt =====
-- Merging two accounts of an organization into one, and undoing it.
pub mod Database
pub mod Merge
pub mod Undo
pub mod Moves
pub mod Effect
pub mod Outcome
pub mod Contacts
pub mod Passing
pub mod Success
pub mod Mergeable
pub mod RoundTrip
pub mod Tests
