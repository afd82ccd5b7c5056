-- ===== src/Candidate/Tests.antt =====
-- The candidate against a small server: `Server` has the server, the other modules run the
-- candidate on it and apply the theorems.
pub mod Server
pub mod Elections
pub mod Nodes
pub mod Histories
pub mod Mocks
pub mod Scenarios
