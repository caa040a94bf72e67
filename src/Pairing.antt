-- ===== src/Pairing.antt =====
-- server/internal/pairing: how an agent reaches people who are not its owner.
pub mod Tokens
pub mod Contacts
pub mod Service
pub mod Cards
