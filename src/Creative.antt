-- ===== src/Creative.antt =====
-- services/creative: the manifests that may be shown.
pub mod Store
