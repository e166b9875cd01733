-- ===== src/Tokens.antt =====
-- pkg/tokens: the cache of public keys.
pub mod PublicKeys
pub mod Claims
pub mod Creator
pub mod Examples
