-- ===== src/DataFetch.antt =====
-- backend/cmd/data-fetch/main.go: the crawler of the public parliament API.
pub mod Urls
pub mod Fetch
pub mod Crawl
pub mod Texts
pub mod Votings
mod Tests
