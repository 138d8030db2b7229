-- ===== src/ChatStream.antt =====
-- agentcook/src/agentcook_app/routers/chat.py and schemas_chat.py: the streaming endpoint of the chat.
-- It composes the verifier of `Turnstile` with a provider of `Fallback`. The encoding of a frame
-- (`data: {json}` and two line breaks), the pauses between frames and the headers are left out.
pub mod Frames
pub mod Endpoint
mod Tests
