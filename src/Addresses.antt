-- ===== src/Addresses.antt =====
-- addresses: URIs.
pub mod Regex
pub mod Uri
