-- ===== src/Api.antt =====
-- pkg/api: compositions, manifests and their preparation for a build or a run.
pub mod Composition
pub mod Build
pub mod Manifest
pub mod Groups
pub mod Prepare
pub mod Validate
pub mod Healthcheck
