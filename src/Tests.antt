-- ===== src/Tests.antt =====
-- Concrete inputs: runs of the models of include/uv_net and src/uv_net, and the theorems at values
-- where their conditions hold.
mod Tcp
mod WebSocket
mod Formats
mod Udp
mod Echo
mod System
mod History
mod Session
mod Early
mod Streams
mod Conversation
