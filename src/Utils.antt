-- ===== src/Utils.antt =====
-- internal/utils: label values, hashes, random names and Git URLs.
pub mod Label
pub mod Names
pub mod GitUrl
