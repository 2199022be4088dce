-- ===== src/Chain.antt =====
-- The forks of a chain, from chain/chain_config.go.
pub mod Config
pub mod Forks
pub mod Rules
pub mod Bor
pub mod Compat
pub mod Agree
pub mod ForkOrder
mod Examples
