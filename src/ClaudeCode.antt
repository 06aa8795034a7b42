-- ===== src/ClaudeCode.antt =====
-- src/activations/claudecode/storage.rs: the buffers of running chats, and the messages that a path of
-- an arbor tree is rendered into.
pub mod Types
pub mod Streams
pub mod Numbered
pub mod Buffer
pub mod Progress
pub mod Delivered
pub mod Render
pub mod Conversation
pub mod Rendered
pub mod Like
pub mod SessionTable
pub mod Sessions
pub mod Named
pub mod Renamed
pub mod Preserved
pub mod Found
pub mod Examples
