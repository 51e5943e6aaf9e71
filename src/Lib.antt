-- ===== src/Lib.antt =====
-- Civika answers citizens' questions on Swiss votations from indexed public documents. Its backend, in Go
-- under backend/, has six parts that are modelled here, and their settings.
--
--  * The question service (backend/internal/services): QAService.Query cleans a question, looks it up in
--    an in-memory cache (QACache: exact answers by a hashed key, and semantic answers by the similarity
--    of vectors), and otherwise asks an embedder, a vector store and a summarizer, and stores the answer.
--  * The preparation of the documents (backend/internal/rag): metadata are cleaned of personal data, a
--    document's tokens are cut into overlapping chunks, and the groups of documents whose index is up to
--    date are skipped.
--  * Language models (backend/internal/rag): a translator that completes the documents in all supported
--    languages, and a summarizer of the hits, both of which emit usage events.
--  * The index command (backend/cmd/rag-cli): it translates, cuts, embeds and stores a group of documents.
--  * The crawler (backend/cmd/data-fetch): it fetches the data of votations from the parliament's API.
--  * The HTTP layer (backend/internal/http): it checks the body of a question, resolves its language and
--    limits the rate of the clients.
--
-- Files, their code, and what stands in them:
--   Prelude (and below)   shared names, Boolean tests on numbers, lists, Go's int, sort.Slice, results
--   Text, GoMap, Float    the parts of Go's language and standard library that the code uses: strings as
--                         lists of bytes, maps as association lists, floating-point operations
--   Langs                 backend/internal/langs/langs.go
--   Services/Models       the types of a question and an answer, backend/internal/services/api_models.go
--   Services/Keys, CacheState, Upkeep, Similarity, QaCache, CacheMetrics
--                         backend/internal/services/qa_cache.go: keys, state, expiry and eviction, the
--                         semantic search, the methods GetExact, GetSemantic and Set, the counters;
--                         Services/QaCache/Memory is their abstract specification
--   Services/Redact, Answer, QaService
--                         backend/internal/services/qa_service.go: the cleaning of a question, the parts
--                         of an answer, and Query (with QueryRAG of backend/internal/rag/query.go)
--   Rag/Metadata, Document, Chunk
--                         backend/internal/rag/metadata.go, ingest.go (the types) and chunk.go
--   Rag/ExpectedCount, Fingerprint, IndexState, IndexSkip
--                         backend/internal/rag/index_skip.go, and pickSourceDocument of translate.go
--   Rag/DebugStats        backend/internal/rag/debug_stats.go
--   Rag/Json, Usage       backend/internal/rag/usage_metrics.go: decoded JSON values, usage events
--   Rag/Completion, ChatClient, Translator, LlmTranslator, EnsureTranslations
--                         backend/internal/rag/translate.go: the answer of a language model, its client,
--                         LLMTranslator, EnsureMissingTranslationsWithOptions
--   Rag/Summary, SummaryPrompt, LlmSummarizer
--                         backend/internal/rag/query.go: DeterministicSummarizer, buildSummaryPrompt,
--                         LLMSummarizer
--   DataFetch (and below) backend/cmd/data-fetch/main.go: addresses, fetchURL, crawlVoting, the selection,
--                         the texts and the languages of votations
--   RagCli (and below)    backend/cmd/rag-cli/main.go: processDocumentGroup, indexUsageCollector
--   Http/Language, Request, Handler
--                         backend/internal/http/handlers.go: the language, the checks, qaQueryHandler
--   Http/Filters          the same file: parseVotationFilters
--   Http/RateLimit        backend/internal/http/middleware.go: qaRateLimiter
--   Config                backend/config/config.go: the settings of the cache, the languages
--   Samples, */Tests, Services/QueryTests, Rag/LlmSamples, LlmTests, EnsureTests, SummaryTests
--                         data, and the theorems at concrete inputs
-- The modules below one of these prove what holds of it.
--
-- How the code is modelled. A method that changes a struct is a function from the old state to the new
-- one and the result; a nil pointer is `none`. The clock is an argument: an instant is a number of
-- nanoseconds since Go's zero time. Each method of the cache holds its mutex, so that a concurrent run is
-- a sequence of steps (Services/QaCache/Runs). SHA-256, the formatting of times, the case mapping
-- of bytes outside ASCII, and the floating-point operations are arguments, and a law that a theorem needs
-- of them is a hypothesis of it. The embedder, the store, the summarizer, the JSON decoder and the token
-- bucket are arguments as well. A Go map is an association list in which no key stands twice, in any order.
-- int64 counters are natural numbers that do not wrap, and so is twice the interval of the rate limiter;
-- sums of token counts and shifted delays wrap. A cut to a negative limit, which no constructor leaves and
-- which panics in Go, gives the whole text.
-- What a client of the network does is a function from its state (the requests posted and the events
-- emitted, or any type) to the new state and the result; what the network answers is a function of the
-- number of requests before, or of the state.
--
-- Bounds and fuel. The loops of the chunks run on fuel, as many rounds as the document has tokens: each
-- round moves on by the step, which is at least 1. The attempts of a client are counted down from their limit, and
-- the crawl from the number of nodes it may visit, so that they end. All other recursion is structural.
--
-- Not modelled: SQL and what it stores, the network and the files themselves, which are arguments, logs,
-- flags, the routes, the workers that index the groups side by side, and the frontend.
pub mod Prelude
pub mod Samples
pub mod Text
pub mod GoMap
pub mod Float
pub mod Langs
pub mod Services
pub mod Rag
pub mod Http
pub mod Config
pub mod DataFetch
pub mod RagCli
