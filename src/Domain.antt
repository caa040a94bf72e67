-- ===== src/Domain.antt =====
-- server/internal/domain: the error model, identifiers and secrets.
pub mod Errors
pub mod Ids
