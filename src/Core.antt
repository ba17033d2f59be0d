-- ===== src/Core.antt =====
-- src/chen/core: experts, routers, KV-caches, the shared memory and the metrics.
pub mod Expert
pub mod Metrics
pub mod Router
pub mod Pipeline
pub mod Cascade
pub mod Handoff
pub mod Mock
pub mod Adapters
pub mod Carbon
pub mod Registry
