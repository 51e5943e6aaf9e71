-- ===== src/Services.antt =====
-- backend/internal/services: the answers' cache and the question answering service.
pub mod Models
pub mod Keys
pub mod CacheState
pub mod Upkeep
pub mod Similarity
pub mod QaCache
pub mod CacheMetrics
pub mod Redact
pub mod Answer
pub mod QaService
mod Tests
mod QueryTests
