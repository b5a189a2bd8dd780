-- ===== src/Security.antt =====
-- hub/security.py: authentication of webhook requests and of the dashboard.
-- HMAC-SHA256 comes from a library (hashlib, or CommonCrypto): it is a parameter.
pub mod Hmac
pub mod Bearer
pub mod Ingress
pub mod Dashboard
