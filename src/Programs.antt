-- ===== src/Programs.antt =====
-- cmd/agent/main.go and cmd/server/main.go: how the two programs start and how the server ends, and
-- cmd/staticlint/main.go: what that program runs.
pub mod AgentStart
pub mod ServerStart
pub mod Restart
pub mod Serving
pub mod StaticLint
