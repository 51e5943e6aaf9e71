-- ===== src/Rag.antt =====
-- backend/internal/rag: metadata, chunks and the decision what is indexed again.
pub mod Metadata
pub mod Document
pub mod Chunk
pub mod ExpectedCount
pub mod Fingerprint
pub mod IndexState
pub mod IndexSkip
pub mod DebugStats
pub mod Json
pub mod Usage
pub mod Completion
pub mod ChatClient
pub mod Translator
pub mod LlmTranslator
pub mod Summary
pub mod SummaryPrompt
pub mod LlmSummarizer
pub mod EnsureTranslations
mod Tests
mod LlmSamples
mod LlmTests
mod EnsureTests
mod SummaryTests
