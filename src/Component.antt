-- ===== src/Component.antt =====
-- internal/component: Git components of the three platforms.
pub mod Interface
pub mod Secrets
pub mod Source
pub mod Tokens
pub mod Cache
pub mod Git
pub mod Github
pub mod Renovate
pub mod Factory
mod Samples
