-- ===== src/DataFetch/Crawl.antt =====
-- backend/cmd/data-fetch/main.go: crawlVoting. Fetching and the writing of files are arguments.
pub mod Visits
pub mod Closed
use civika.Prelude.{
  ℕ, zero, suc, ◌+◌, Bool, true, false, not, ◌&&◌, Option, none, some, List, [], ◌∷◌, ◌++◌, map,
  keep, length, if◌then◌else◌,
}
use civika.Prelude.Int.{ℤ, pos, pos_part, ltb_ℤ}
use civika.Prelude.Result.{Result, ok, err}
use civika.Prelude.StateResult.{and_then}
use civika.Text.{Str, codes}
use civika.GoMap.{Map, insert}
use civika.Langs.{contains}

pub record CrawlNode : Type 0 where
  pub url : Str
  pub depth : ℕ
  pub name : Str

-- `f.fetchURL`, the writing of the body of the node with a number, `isAllowedOpenParlAPIURL` and
-- `extractChildURLs`.
pub record Crawler (W E : Type 0) : Type 0 where
  pub fetch : Str → W → W × Result E Str
  pub write : CrawlNode → ℕ → Str → W → W × Result E Unit
  pub is_allowed : Str → Bool
  pub children : Str → List Str

module _ {W E : Type 0} (c : Crawler W E) (max_depth : ℤ) where
  -- The three conditions under which a node of the queue is visited.
  unfoldable pub is_visited : List Str → CrawlNode → Bool
  unfolding contains
  is_visited seen node =
      not (ltb_ℤ max_depth (pos node.depth))
      && (c.is_allowed node.url && not (contains seen node.url))

  -- The next node that is visited, and the queue after it.
  unfoldable pub next_node : List Str → List CrawlNode → Option (CrawlNode × List CrawlNode)
  unfolding is_visited
  next_node seen [] = none
  next_node seen (node ∷ queue) =
      let rest = next_node seen queue in if is_visited seen node then some (node, queue) else rest

  -- The nodes that a body adds to the queue.
  unfoldable pub child_nodes : CrawlNode → Str → List CrawlNode
  child_nodes node body =
      map (λ url. record { url = url; depth = suc node.depth; name = codes "link" })
        (keep c.is_allowed (c.children body))

  -- The loop; `budget` is the number of nodes that may still be visited, `visited` are the nodes and
  -- their bodies so far, the latest first.
  unfoldable pub crawl :
      ℕ → List CrawlNode → List (CrawlNode × Str) → W → W × Result E (List (CrawlNode × Str))
  unfolding next_node child_nodes
  crawl zero queue visited w = (w, ok visited)
  crawl (suc budget) queue visited w = elim (next_node (map (λ v. v.0.url) visited) queue) [
    | none ↦ (w, ok visited)
    | some next ↦ and_then (c.fetch next.0.url w) (λ body v.
        and_then (c.write next.0 (suc (length visited)) body v)
          (λ u x. crawl budget (next.1 ++ child_nodes next.0 body) ((next.0, body) ∷ visited) x))
  ]

  -- `bodies`
  unfoldable pub bodies_of : List (CrawlNode × Str) → Map Str
  bodies_of [] = []
  bodies_of ((node, body) ∷ visited) = insert node.url body (bodies_of visited)

  unfoldable pub crawl_voting : List CrawlNode → ℤ → W → W × Result E (Map Str)
  unfolding crawl bodies_of
  crawl_voting seeds max_nodes w =
      and_then (crawl (pos_part max_nodes) seeds [] w) (λ visited v. (v, ok (bodies_of visited)))
