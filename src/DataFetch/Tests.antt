-- ===== src/DataFetch/Tests.antt =====
-- The theorems on the crawler of the parliament API at concrete inputs.
use civika.Prelude.{ℕ, suc, ◌+◌, ◌≤◌, ◌≡◌, refl, true, false, some, none, List, [], ◌∷◌, arith}
use civika.Prelude.Int.{pos, negsuc, ◌≤ℤ◌}
use civika.Prelude.Result.{ok}
use civika.Text.{Str, codes, eqb, trim_space}
use civika.DataFetch.Urls.{UrlOps}
use civika.DataFetch.Crawl.{CrawlNode, Crawler, crawl}
use civika.DataFetch.Crawl.Visits.{AreVisits, crawl-AreVisits}
use civika.DataFetch.Crawl.Closed.{IsClosed, crawl-IsClosed}
use civika.DataFetch.Fetch.{retry_delay, found, no_answer, System, Fetcher, read_cache, fetch_url}
use civika.DataFetch.Fetch.Delay.{retry_delay_bounds}
use civika.DataFetch.Fetch.Fresh.{IsFresh, read_cache-IsFresh}
use civika.DataFetch.Fetch.Tries.{fetch_url_requests}
use civika.DataFetch.Votings.{OpVoting}
use civika.Samples.{plain_runtime}

-- Each address links to itself and to "b"; the state counts the calls.
abbrev loop_crawler : Crawler ℕ Str
loop_crawler = record {
  fetch = λ url w. (suc w, ok url);
  write = λ node n body w. (w, ok tt);
  is_allowed = λ url. true;
  children = λ body. body ∷ codes "b" ∷ [];
}

abbrev seed : CrawlNode
seed = record { url = codes "a"; depth = 0; name = [] }

abbrev after_seed : List (CrawlNode × Str)
after_seed =
    (record { url = codes "b"; depth = 1; name = codes "link" }, codes "b") ∷ (seed, codes "a") ∷ []

crawled : crawl loop_crawler (pos 3) 9 (seed ∷ []) [] 0 ≡ (2, ok after_seed)
unfolding crawl eqb
crawled = refl

crawl-AreVisits_example : AreVisits loop_crawler (pos 3) 9 after_seed
crawl-AreVisits_example = crawl-AreVisits loop_crawler (pos 3) 9 (seed ∷ []) 0 2 after_seed crawled

crawl-IsClosed_example : IsClosed loop_crawler (pos 3) (seed ∷ []) after_seed
crawl-IsClosed_example =
    crawl-IsClosed loop_crawler (pos 3) 9 (seed ∷ []) 0 2 after_seed crawled (omega arith)

retry_delay_bounds_example :
    (pos 1 ≤ℤ retry_delay 3 (pos 0) (pos 30000000000))
    × (retry_delay 3 (pos 0) (pos 30000000000) ≤ℤ pos 30000000000)
retry_delay_bounds_example =
    retry_delay_bounds 3 (pos 0) (pos 30000000000) (omega arith) (omega arith)

-- Shifted far enough, the delay is negative.
delay_overflow : retry_delay 34 (pos 0) (pos 30000000000) ≡ negsuc 1266874889709551615
unfolding retry_delay
delay_overflow = refl

abbrev plain_urls : UrlOps
plain_urls = record { parse = λ raw. none; folds_wide = λ s t. false }

-- A cache that has a description and a body of one byte for every address.
abbrev full_cache : System ℕ
full_cache = record {
  read_file = λ w path. found (14 ∷ []);
  decode_meta =
      λ raw. ok (record { url = []; content_type = []; sha256 = codes "0e"; fetched_at_utc = [] });
  parse_time = λ raw. some 0;
  now = λ w. 1;
  join_path = λ parts. [];
  until = λ w raw. none;
  wait_for_next_request = λ w. (w, ok tt);
  get = λ url w. (suc w, no_answer (codes "HTTP status: 500"));
  write_cache = λ url content_type body w. (w, ok tt);
  sleep = λ d w. (w, ok tt);
}

abbrev fetcher : Fetcher
fetcher = record {
  max_response_bytes = 10;
  max_retries = 2;
  backoff_max = pos 30000000000;
  cache_dir = codes "c";
  cache_ttl = pos 100;
  force_refresh = true;
}

cached :
    read_cache plain_runtime plain_urls full_cache fetcher (codes "u") 0 ≡ ok (some (14 ∷ [], []))
unfolding read_cache eqb trim_space
cached = refl

read_cache-IsFresh_example :
    IsFresh plain_runtime plain_urls full_cache fetcher (codes "u") 0 (14 ∷ [], [])
read_cache-IsFresh_example =
    read_cache-IsFresh plain_runtime plain_urls full_cache fetcher (codes "u") 0 (14 ∷ [], [])
      cached

fetch_url_requests_example :
    (fetch_url plain_runtime plain_urls full_cache fetcher (codes "u") 0).0 ≤ 0 + 3
fetch_url_requests_example =
    fetch_url_requests plain_runtime plain_urls full_cache fetcher (λ w. w) (λ w. refl)
      (λ url w. refl) (λ url content_type body w. refl) (λ d w. refl) (codes "u") 0

abbrev voting : OpVoting
voting = record {
  id = pos 1;
  url_api = codes "u";
  body_key = [];
  external_id = [];
  date = codes "d";
  title = [];
  affair_id = pos 2;
  affair_title = [];
  meaning_of_yes = [];
  meaning_of_no = [];
  links = record { affairs = []; votes = []; meeting = []; bodies = [] };
  selection_cause = [];
}
