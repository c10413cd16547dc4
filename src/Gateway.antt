-- ===== src/Gateway.antt =====
-- internal/gateway: the sources of bytes.
pub mod Serial
pub mod Tcp
