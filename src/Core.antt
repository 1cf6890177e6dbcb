-- ===== src/Core.antt =====
-- core/: messages, the wire formats, the transports and the agent runtime.
pub mod Wire
pub mod Flow
pub mod Message
pub mod Protocol
pub mod Frame
pub mod Transport
pub mod Tcp
pub mod Runtime
