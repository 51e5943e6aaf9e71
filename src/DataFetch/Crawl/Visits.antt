-- ===== src/DataFetch/Crawl/Visits.antt =====
-- backend/cmd/data-fetch/main.go: the nodes that crawlVoting fetches.
use civika.Prelude.{
  ℕ, zero, suc, ◌+◌, ◌≤◌, ◌≡◌, refl, subst, Bool, true, false, not, ◌&&◌, some, List, [], ◌∷◌, ◌++◌,
  map, length, All, Bool-cases, Option-cases, inl, inr, arith,
}
use civika.Prelude.Int.{ℤ, pos, ltb_ℤ}
use civika.Prelude.Result.{ok}
use civika.Prelude.StateResult.{Ends, and_then-Ends, Ends-state}
use civika.Text.{Str}
use civika.Langs.{contains}
use civika.DataFetch.Crawl.{CrawlNode, Crawler, is_visited, next_node, child_nodes, crawl}

abbrev pub urls : List (CrawlNode × Str) → List Str
urls visited = map (λ v. v.0.url) visited

-- No address stands twice.
abbrev pub AreDistinct : List Str → Type 0
AreDistinct [] = Unit
AreDistinct (u ∷ us) = (contains us u ≡ false) × AreDistinct us

module _ {W E : Type 0} (c : Crawler W E) (max_depth : ℤ) where
  -- A node that may be fetched.
  abbrev pub IsWithin : CrawlNode × Str → Type 0
  IsWithin v = (c.is_allowed v.0.url ≡ true) × (ltb_ℤ max_depth (pos v.0.depth) ≡ false)

  both : (d a s : Bool) → (not d && (a && not s)) ≡ true → (d ≡ false) × (a ≡ true) × (s ≡ false)
  both false true false h = (refl, refl, refl)
  both false true true h = absurd cc
  both false false s h = absurd cc
  both true a s h = absurd cc

  pub is_visited_only :
      (seen : List Str) (node : CrawlNode)
      → is_visited c max_depth seen node ≡ true
      → (ltb_ℤ max_depth (pos node.depth) ≡ false)
        × (c.is_allowed node.url ≡ true)
        × (contains seen node.url ≡ false)
  unfolding is_visited
  is_visited_only seen node h =
      both (ltb_ℤ max_depth (pos node.depth)) (c.is_allowed node.url) (contains seen node.url) h

  next_node_visited :
      (seen : List Str) (queue : List CrawlNode) (next : CrawlNode × List CrawlNode)
      → next_node c max_depth seen queue ≡ some next
      → is_visited c max_depth seen next.0 ≡ true
  unfolding next_node
  next_node_visited seen [] next h = absurd cc
  next_node_visited seen (node ∷ queue) next h =
      elim (Bool-cases (is_visited c max_depth seen node)) [
        | inl t ↦
            let i : some (node, queue) ≡ some next = rw (next_node, t) at h in
            subst (λ n. is_visited c max_depth seen n.0 ≡ true)
              (let j : (node, queue) ≡ next = cc in j) t
        | inr t ↦ next_node_visited seen queue next (rw (next_node, t) at h)
      ]

  -- What holds of the nodes that are visited at the end.
  abbrev pub AreVisits : ℕ → List (CrawlNode × Str) → Type 0
  AreVisits n r = (length r ≤ n) × (All IsWithin r × AreDistinct (urls r))

  crawl-Ends :
      (budget n : ℕ) (queue : List CrawlNode) (visited : List (CrawlNode × Str)) (w : W)
      → length visited + budget ≤ n
      → All IsWithin visited
      → AreDistinct (urls visited)
      → Ends (λ v r. AreVisits n r) (λ v x. Unit) (crawl c max_depth budget queue visited w)
  unfolding crawl
  crawl-Ends zero n queue visited w l a d = (omega arith, (a, d))
  crawl-Ends (suc budget) n queue visited w l a d =
      elim (Option-cases (next_node c max_depth (urls visited) queue)) [
        | inl m ↦ rw (crawl, m) (omega arith, (a, d))
        | inr (next, m) ↦
            let (deep, allowed, fresh) =
              is_visited_only (urls visited) next.0
                (next_node_visited (urls visited) queue next m) in
            rw (crawl, m)
              (and_then-Ends (λ v b. Unit) (λ v r. AreVisits n r) (λ v x. Unit) _ _
                (Ends-state (λ v. Unit) (c.fetch next.0.url w) tt)
                (λ body v i.
                  and_then-Ends (λ x b. Unit) (λ x r. AreVisits n r) (λ x e. Unit) _ _
                    (Ends-state (λ x. Unit) (c.write next.0 (suc (length visited)) body v) tt)
                    (λ u x j.
                      crawl-Ends budget n (next.1 ++ child_nodes c max_depth next.0 body)
                        ((next.0, body) ∷ visited) x (omega arith) ((allowed, deep), a)
                        (fresh, d))))
      ]

  -- When the crawl of a votation returns, it has fetched at most as many nodes as its limit, each of
  -- them has an allowed address and is no deeper than the limit, and no address was fetched twice.
  pub crawl-AreVisits :
      (max_nodes : ℕ) (seeds : List CrawlNode) (w v : W) (visited : List (CrawlNode × Str))
      → crawl c max_depth max_nodes seeds [] w ≡ (v, ok visited)
      → AreVisits max_nodes visited
  crawl-AreVisits max_nodes seeds w v visited h =
      let e : Ends {X = E} (λ u r. AreVisits max_nodes r) (λ u x. Unit) (v, ok visited) =
        subst (Ends (λ u r. AreVisits max_nodes r) (λ u x. Unit)) h
          (crawl-Ends max_nodes max_nodes seeds [] w (omega arith) tt tt) in
      e
