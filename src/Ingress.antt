-- ===== src/Ingress.antt =====
-- The loopback HTTP ingress for service events (archive/v3/src/mutsumi_sync/ingress.py).
pub mod Defs
pub mod Process
