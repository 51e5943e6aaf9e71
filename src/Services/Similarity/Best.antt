-- ===== src/Services/Similarity/Best.antt =====
-- backend/internal/services/qa_cache.go: what the loop of `GetSemantic` finds, and the order of the map.
use civika.Prelude.{
  ◌≡◌, refl, sym, ◌∙◌, true, false, none, some, List, [], ◌∷◌, All, ◌⊎◌, inl, inr, Bool-cases,
  arith,
}
use civika.Text.{Str, eqb}
use civika.Text.Laws.{eqb_iff, eq_refl}
use civika.Float.{FloatOps}
use civika.GoMap.{Map, lookup, Distinct, lookup-All}
use civika.Services.CacheState.{QaCacheEntry}
use civika.Services.Similarity.{cosine_similarity, better, best_match}

-- `<` of IEEE 754, which NaN satisfies too.
pub record IsStrict {F F32 : Type 0} (fl : FloatOps F F32) : Type 0 where
  pub irrefl : (a : F) → fl.lt a a ≡ false
  pub trans : (a b c : F) → fl.lt a b ≡ true → fl.lt b c ≡ true → fl.lt a c ≡ true

module _ {F F32 : Type 0} (fl : FloatOps F F32) (strict : IsStrict fl) (vector : List F32)
    (hash : Str) where
  -- The score does not fall.
  abbrev Rises : F → F → Type 0
  Rises a b = (b ≡ a) ⊎ (fl.lt a b ≡ true)

  better-Rises :
      (e : Str × QaCacheEntry F F32) (b : Str × F) → Rises b.1 (better fl vector hash e b).1
  unfolding better
  better-Rises (k, e) b = ground arith

  Rises-trans : (a b c : F) → Rises a b → Rises b c → Rises a c
  Rises-trans a b c h k = ground (arith, strict.trans a b c)

  best_match-Rises :
      (m : Map (QaCacheEntry F F32)) (b : Str × F) → Rises b.1 (best_match fl vector hash m b).1
  unfolding best_match
  best_match-Rises [] b = inl refl
  best_match-Rises (e ∷ m) b =
      Rises-trans b.1 (better fl vector hash e b).1 _ (better-Rises e b)
        (best_match-Rises m (better fl vector hash e b))

  Rises-not-lt : (a b : F) → Rises a b → fl.lt b a ≡ false
  Rises-not-lt a b h = ground (arith, strict.irrefl a, strict.irrefl b, strict.trans a b a)

  abbrev NotAbove : F → Str × QaCacheEntry F F32 → Type 0
  NotAbove r e =
      e.1.context_hash ≡ hash → fl.lt r (cosine_similarity fl vector e.1.question_vector) ≡ false

  better-NotAbove :
      (e : Str × QaCacheEntry F F32) (b : Str × F) (r : F)
      → Rises (better fl vector hash e b).1 r
      → NotAbove r e
  unfolding better
  better-NotAbove (k, e) b r h same =
      let score = cosine_similarity fl vector e.question_vector in
      ground (arith, eqb_iff e.context_hash hash, Rises-not-lt score r, strict.trans b.1 r score)

  best_match-NotAbove :
      (m : Map (QaCacheEntry F F32)) (b : Str × F)
      → All (NotAbove (best_match fl vector hash m b).1) m
  unfolding best_match
  best_match-NotAbove [] b = tt
  best_match-NotAbove (e ∷ m) b = (
    better-NotAbove e b _ (best_match-Rises m (better fl vector hash e b)),
    best_match-NotAbove m (better fl vector hash e b),
  )

  -- The best key and the best score come from an entry of the context.
  abbrev pub IsFrom : Map (QaCacheEntry F F32) → Str × F → Type 0
  IsFrom m best =
      (e : QaCacheEntry F F32) × (lookup best.0 m ≡ some e)
      × (e.context_hash ≡ hash)
      × (best.1 ≡ cosine_similarity fl vector e.question_vector)

  IsFrom-cons :
      (k : Str) (e : QaCacheEntry F F32) (m : Map (QaCacheEntry F F32)) (best : Str × F)
      → lookup k m ≡ none
      → IsFrom m best
      → IsFrom ((k, e) ∷ m) best
  unfolding lookup
  IsFrom-cons k e m best absent (f, found, same, score) =
      (f, ground (arith, eqb_iff k best.0, found), same, score)

  better-IsFrom :
      (k : Str) (e : QaCacheEntry F F32) (m : Map (QaCacheEntry F F32)) (b : Str × F)
      → (better fl vector hash (k, e) b ≡ b) ⊎ IsFrom ((k, e) ∷ m) (better fl vector hash (k, e) b)
  unfolding better lookup
  better-IsFrom k e m b = elim (Bool-cases (eqb e.context_hash hash)) [
    | inr other ↦ inl (rw other)
    | inl same ↦ elim (Bool-cases (fl.lt b.1 (cosine_similarity fl vector e.question_vector))) [
      | inr low ↦ inl (rw (same, low))
      | inl high ↦ inr (rw (same, high) (e, rw (eq_refl k), (eqb_iff _ _).0 same, refl))
    ]
  ]

  pub best_match-IsFrom :
      (m : Map (QaCacheEntry F F32)) (b : Str × F)
      → Distinct m
      → (best_match fl vector hash m b ≡ b) ⊎ IsFrom m (best_match fl vector hash m b)
  unfolding best_match
  best_match-IsFrom [] b d = inl refl
  best_match-IsFrom ((k, e) ∷ m) b d =
      elim (best_match-IsFrom m (better fl vector hash (k, e) b) d.1) [
        | inr later ↦ inr (IsFrom-cons k e m _ d.0 later)
        | inl stays ↦ elim (better-IsFrom k e m b) [
          | inl none_better ↦ inl (stays ∙ none_better)
          | inr here ↦ inr (rw stays here)
        ]
      ]

  -- No entry of the context scores above the best score.
  pub best_match-ge :
      (m : Map (QaCacheEntry F F32)) (b : Str × F) (k : Str) (e : QaCacheEntry F F32)
      → lookup k m ≡ some e
      → e.context_hash ≡ hash
      → fl.lt (best_match fl vector hash m b).1 (cosine_similarity fl vector e.question_vector)
        ≡ false
  best_match-ge m b k e found same =
      lookup-All (NotAbove (best_match fl vector hash m b).1) k m (best_match-NotAbove m b) found
        same

  one_side :
      (m n : Map (QaCacheEntry F F32)) (b : Str × F)
      → Distinct n
      → ((k : Str) → lookup k m ≡ lookup k n)
      → fl.lt (best_match fl vector hash m b).1 (best_match fl vector hash n b).1 ≡ false
  one_side m n b d same = elim (best_match-IsFrom n b d) [
    | inl stays ↦ rw stays (Rises-not-lt b.1 _ (best_match-Rises m b))
    | inr (e, found, context, score) ↦ rw score (best_match-ge m b _ e (same _ ∙ found) context)
  ]

  -- With a strict order on scores: two maps without a key that stands twice and with the same entries,
  -- whatever their orders, give best scores of which neither is less than the other.
  pub best_match-order :
      (m n : Map (QaCacheEntry F F32)) (b : Str × F)
      → Distinct m
      → Distinct n
      → ((k : Str) → lookup k m ≡ lookup k n)
      → (fl.lt (best_match fl vector hash m b).1 (best_match fl vector hash n b).1 ≡ false)
        × (fl.lt (best_match fl vector hash n b).1 (best_match fl vector hash m b).1 ≡ false)
  best_match-order m n b dm dn same =
      (one_side m n b dn same, one_side n m b dm (λ k. sym (same k)))
