-- ===== src/Agents.antt =====
-- server/internal/agents: the agents, and their bindings to their backends.
pub mod Bindings
pub mod Registry
