-- ===== src/DataProtection.antt =====
-- apps/api/src/data-protection: the data keys of the organizations, and the cipher that protects
-- personal data under them.
pub mod Keys
pub mod Cipher
