-- ===== src/Context.antt =====
-- internal/agent/context.go: the size of a conversation and what of it is sent to the provider.
-- A loop that runs from the last message to the first is a recursion that handles the rest of the
-- list before its head.
pub mod Trim
pub mod Estimate
pub mod Interrupted
pub mod Split
pub mod Window
pub mod Config
mod Tests
