-- ===== src/Http.antt =====
-- backend/internal/http: the language of a question, the checks of its body, its handler and the rate
-- limit of the clients.
pub mod Language
pub mod Request
pub mod Handler
pub mod RateLimit
pub mod Filters
mod Tests
