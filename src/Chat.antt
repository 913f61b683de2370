-- ===== src/Chat.antt =====
-- Conversations and the agent that answers in them: apps/api/src/domains/chat.
pub mod Models
pub mod Toolbox
pub mod Agent
pub mod Keeps
pub mod Citations
pub mod Ledger
pub mod Transcript
pub mod Translated
pub mod Service
pub mod Stream
pub mod Survives
mod Tests
