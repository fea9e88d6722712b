-- ===== src/Heci.antt =====
-- lib/heci: the transport of messages to the security engine (CSE) and the retrieval of the
-- attestation keybox.
pub mod Regs
pub mod Taken
pub mod Init
pub mod Wait
pub mod Send
pub mod Receive
pub mod Attkb
pub mod Tests
