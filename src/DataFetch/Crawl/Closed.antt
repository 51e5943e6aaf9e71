-- ===== src/DataFetch/Crawl/Closed.antt =====
-- backend/cmd/data-fetch/main.go: what crawlVoting leaves out.
use civika.Prelude.{
  ℕ, zero, suc, ◌+◌, ◌<◌, ◌≡◌, ◌⊎◌, refl, sym, subst, true, false, none, some, List, [], ◌∷◌, ◌++◌,
  length, All, All-map, In, In-append_left, In-append_right, Bool-cases, Option-cases, inl, inr,
  arith,
}
use civika.Prelude.Int.{ℤ, pos, ltb_ℤ}
use civika.Prelude.Result.{ok}
use civika.Prelude.StateResult.{Ends, and_then-Ends, Ends-state}
use civika.Text.{Str, eqb}
use civika.Text.Laws.{eq_refl}
use civika.Langs.{contains}
use civika.DataFetch.Crawl.{CrawlNode, Crawler, is_visited, next_node, child_nodes, crawl}
use civika.DataFetch.Crawl.Visits.{urls}

module _ {W E : Type 0} (c : Crawler W E) (max_depth : ℤ) where
  -- A node that is never fetched: too deep, or outside the API.
  abbrev IsBarred : CrawlNode → Type 0
  IsBarred n = (ltb_ℤ max_depth (pos n.depth) ≡ true) ⊎ (c.is_allowed n.url ≡ false)

  abbrev IsSettled : List (CrawlNode × Str) → CrawlNode → Type 0
  IsSettled visited n = (contains (urls visited) n.url ≡ true) ⊎ IsBarred n

  -- All seeds and all links of the fetched bodies are fetched, or are barred.
  abbrev pub IsClosed : List CrawlNode → List (CrawlNode × Str) → Type 0
  IsClosed seeds visited =
      All (IsSettled visited) seeds
      × All (λ v. All (IsSettled visited) (child_nodes c max_depth v.0 v.1)) visited

  abbrev IsCovered : List (CrawlNode × Str) → List CrawlNode → CrawlNode → Type 0
  IsCovered visited queue n = In n queue ⊎ IsSettled visited n

  IsSettled-of_skipped :
      (visited : List (CrawlNode × Str)) (n : CrawlNode)
      → is_visited c max_depth (urls visited) n ≡ false
      → IsSettled visited n
  unfolding is_visited
  IsSettled-of_skipped visited n h = elim (Bool-cases (ltb_ℤ max_depth (pos n.depth))) [
    | inl d ↦ inr (inl d)
    | inr d ↦ elim (Bool-cases (c.is_allowed n.url)) [
      | inr a ↦ inr (inr a)
      | inl a ↦ elim (Bool-cases (contains (urls visited) n.url)) [
        | inl s ↦ inl s
        | inr s ↦ absurd (let e : true ≡ false = rw (is_visited, d, a, s) at h in cc)
      ]
    ]
  ]

  skipped_of_none :
      (seen : List Str) (queue : List CrawlNode) (n : CrawlNode)
      → next_node c max_depth seen queue ≡ none
      → In n queue
      → is_visited c max_depth seen n ≡ false
  unfolding next_node
  skipped_of_none seen [] n h i = elim i [ ]
  skipped_of_none seen (node ∷ queue) n h i = elim (Bool-cases (is_visited c max_depth seen node)) [
    | inl t ↦ absurd (let e : some (node, queue) ≡ none = rw (next_node, t) at h in cc)
    | inr t ↦ elim i [
      | inl e ↦ subst (λ m. is_visited c max_depth seen m ≡ false) (sym e) t
      | inr j ↦ skipped_of_none seen queue n (rw (next_node, t) at h) j
    ]
  ]

  kept_of_next :
      (seen : List Str) (queue : List CrawlNode) (next : CrawlNode × List CrawlNode) (n : CrawlNode)
      → next_node c max_depth seen queue ≡ some next
      → In n queue
      → (n ≡ next.0) ⊎ (In n next.1 ⊎ (is_visited c max_depth seen n ≡ false))
  unfolding next_node
  kept_of_next seen [] next n h i = elim i [ ]
  kept_of_next seen (node ∷ queue) next n h i =
      elim (Bool-cases (is_visited c max_depth seen node)) [
        | inl t ↦
            let q : some (node, queue) ≡ some next = rw (next_node, t) at h in
            subst (λ m. (n ≡ m.0) ⊎ (In n m.1 ⊎ (is_visited c max_depth seen n ≡ false)))
              (let j : (node, queue) ≡ next = cc in j)
              (elim i [ inl e ↦ inl e | inr k ↦ inr (inl k) ])
        | inr t ↦ elim i [
          | inl e ↦ inr (inr (subst (λ m. is_visited c max_depth seen m ≡ false) (sym e) t))
          | inr j ↦ kept_of_next seen queue next n (rw (next_node, t) at h) j
        ]
      ]

  contains_more :
      (u v : Str) (seen : List Str) → contains seen u ≡ true → contains (v ∷ seen) u ≡ true
  unfolding contains
  contains_more u v seen h = elim (Bool-cases (eqb v u)) [ inl e ↦ rw e refl | inr e ↦ rw e h ]

  contains_first : (u : Str) (seen : List Str) → contains (u ∷ seen) u ≡ true
  unfolding contains
  contains_first u seen = rw (eq_refl u) refl

  IsSettled-more :
      (visited : List (CrawlNode × Str)) (v : CrawlNode × Str) (n : CrawlNode)
      → IsSettled visited n
      → IsSettled (v ∷ visited) n
  IsSettled-more visited v n (inl h) = inl (contains_more n.url v.0.url (urls visited) h)
  IsSettled-more visited v n (inr h) = inr h

  IsCovered-next :
      (visited : List (CrawlNode × Str)) (queue children : List CrawlNode)
      (next : CrawlNode × List CrawlNode) (body : Str) (n : CrawlNode)
      → next_node c max_depth (urls visited) queue ≡ some next
      → IsCovered visited queue n
      → IsCovered ((next.0, body) ∷ visited) (next.1 ++ children) n
  IsCovered-next visited queue children next body n h (inr s) =
      inr (IsSettled-more visited (next.0, body) n s)
  IsCovered-next visited queue children next body n h (inl i) =
      elim (kept_of_next (urls visited) queue next n h i) [
        | inl e ↦ inr (
            inl (
              subst (λ m. contains (next.0.url ∷ urls visited) m.url ≡ true) (sym e)
                (contains_first next.0.url (urls visited))))
        | inr k ↦ elim k [
          | inl j ↦ inl (In-append_left n next.1 children j)
          | inr s ↦ inr (IsSettled-more visited (next.0, body) n (IsSettled-of_skipped visited n s))
        ]
      ]

  All-In : (xs ys : List CrawlNode) → ((n : CrawlNode) → In n xs → In n ys) → All (λ n. In n ys) xs
  All-In [] ys f = tt
  All-In (x ∷ xs) ys f = (f x (inl refl), All-In xs ys (λ n i. f n (inr i)))

  -- The invariant of the loop.
  abbrev AreCovered : List CrawlNode → List (CrawlNode × Str) → List CrawlNode → Type 0
  AreCovered seeds visited queue =
      All (IsCovered visited queue) seeds
      × All (λ v. All (IsCovered visited queue) (child_nodes c max_depth v.0 v.1)) visited

  IsClosed-of_none :
      (seeds : List CrawlNode) (visited : List (CrawlNode × Str)) (queue : List CrawlNode)
      → next_node c max_depth (urls visited) queue ≡ none
      → AreCovered seeds visited queue
      → IsClosed seeds visited
  IsClosed-of_none seeds visited queue h (s, k) =
      let settle : (n : CrawlNode) → IsCovered visited queue n → IsSettled visited n = λ n i.
        elim i [
          | inl j ↦ IsSettled-of_skipped visited n (skipped_of_none (urls visited) queue n h j)
          | inr j ↦ j
        ] in
      (All-map seeds settle s, All-map visited (λ v a. All-map _ settle a) k)

  next_covered :
      (seeds : List CrawlNode) (visited : List (CrawlNode × Str)) (queue : List CrawlNode)
      (next : CrawlNode × List CrawlNode) (body : Str)
      → next_node c max_depth (urls visited) queue ≡ some next
      → AreCovered seeds visited queue
      → AreCovered seeds ((next.0, body) ∷ visited) (next.1 ++ child_nodes c max_depth next.0 body)
  next_covered seeds visited queue next body h (s, k) =
      let children = child_nodes c max_depth next.0 body in
      (
        All-map seeds (λ n i. IsCovered-next visited queue children next body n h i) s,
        (
          All-map children (λ n i. inl i)
              (All-In children (next.1 ++ children) (λ n i. In-append_right n next.1 children i)),
          All-map visited
              (λ v a. All-map _ (λ n i. IsCovered-next visited queue children next body n h i) a) k,
        ),
      )

  crawl-Ends :
      (budget n : ℕ) (seeds queue : List CrawlNode) (visited : List (CrawlNode × Str)) (w : W)
      → length visited + budget ≡ n
      → AreCovered seeds visited queue
      → Ends
          (λ v r. (length r ≡ n) ⊎ IsClosed seeds r)
          (λ v x. Unit)
          (crawl c max_depth budget queue visited w)
  unfolding crawl
  crawl-Ends zero n seeds queue visited w l k = inl (omega arith)
  crawl-Ends (suc budget) n seeds queue visited w l k =
      let P : W → List (CrawlNode × Str) → Type 0 = λ v r. (length r ≡ n) ⊎ IsClosed seeds r in
      elim (Option-cases (next_node c max_depth (urls visited) queue)) [
        | inl m ↦ rw (crawl, m) (inr (IsClosed-of_none seeds visited queue m k))
        | inr (next, m) ↦
            rw (crawl, m)
              (and_then-Ends (λ v b. Unit) P (λ v x. Unit) _ _
                (Ends-state (λ v. Unit) (c.fetch next.0.url w) tt)
                (λ body v i.
                  and_then-Ends (λ x b. Unit) P (λ x e. Unit) _ _
                    (Ends-state (λ x. Unit) (c.write next.0 (suc (length visited)) body v) tt)
                    (λ u x j.
                      crawl-Ends budget n seeds (next.1 ++ child_nodes c max_depth next.0 body)
                        ((next.0, body) ∷ visited) x (omega arith)
                        (next_covered seeds visited queue next body m k))))
      ]

  -- When the crawl of a votation returns fewer nodes than its limit, the address of each seed and of
  -- each allowed link in a fetched body has been fetched, or the node is deeper than the limit or not
  -- allowed.
  pub crawl-IsClosed :
      (max_nodes : ℕ) (seeds : List CrawlNode) (w v : W) (visited : List (CrawlNode × Str))
      → crawl c max_depth max_nodes seeds [] w ≡ (v, ok visited)
      → length visited < max_nodes
      → IsClosed seeds visited
  crawl-IsClosed max_nodes seeds w v visited h l =
      let P : W → List (CrawlNode × Str) → Type 0 =
        λ u r. (length r ≡ max_nodes) ⊎ IsClosed seeds r in
      let e : Ends {X = E} P (λ u x. Unit) (v, ok visited) =
        subst (Ends {X = E} P (λ u x. Unit)) h (
          crawl-Ends max_nodes max_nodes seeds seeds [] w (omega arith)
            (All-map seeds (λ n i. inl i) (All-In seeds seeds (λ n i. i)), tt)) in
      elim e [ inl q ↦ absurd (omega arith) | inr k ↦ k ]
