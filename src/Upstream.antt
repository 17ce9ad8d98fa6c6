-- ===== src/Upstream.antt =====
-- internal/auth/upstream: the bearer tokens of the upstream registries; Challenge reads what an
-- upstream asks for, Tokens caches what the realm hands out, and
-- Fetch asks the realm.
pub mod Challenge
pub mod Tokens
pub mod Fetch
