-- ===== src/Crypto.antt =====
-- pkg/crypto: the cipher of stored secrets, the hashes of passwords and the signed tokens.
pub mod Base64
pub mod Coding
pub mod Cipher
pub mod Password
pub mod Token
pub mod Secrets
pub mod Tokens
pub mod Passwords
