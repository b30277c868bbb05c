-- ===== src/Crypt.antt =====
-- The wrappers of OpenSSL under Src/Crypt.
pub mod Engine
pub mod Contexts
pub mod Tls
pub mod Cookies
pub mod Dtls
pub mod MediaDtls
pub mod Read
pub mod Modes
pub mod CookieUse
pub mod Links
mod Examples
