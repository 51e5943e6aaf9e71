-- ===== src/Rag/EnsureTranslations/Pairs.antt =====
-- backend/internal/rag/translate.go: the pairs of the identifiers and the languages.
use civika.Prelude.{
  ◌≡◌, ◌≢◌, ◌⊎◌, inl, inr, sym, ap, subst, none, List, [], ◌∷◌, map, In, In-map, In-map-cases,
  In-append_left, In-append_right, In-append-cases, AreDistinct, AreDistinct-append, Bool-cases,
}
use civika.Text.{Str, eqb}
use civika.Text.Laws.{eq_refl}
use civika.GoMap.{Map, lookup, insert, keys, Distinct, insert-Distinct}
use civika.Rag.Document.{Document}
use civika.Rag.IndexSkip.{add_to_group, group_documents}
use civika.Rag.EnsureTranslations.Labels.{pairs}

pub In-pairs :
    (k l : Str) (ks ls : List Str) → In k ks → In l ls → In {A = Str × Str} (k, l) (pairs ks ls)
In-pairs k l [] ls i j = elim i [ ]
In-pairs k l (x ∷ ks) ls (inl e) j =
    In-append_left (k, l) (map (λ y. (x, y)) ls) (pairs ks ls)
      (subst (λ z. In {A = Str × Str} (k, l) (map (λ y. (z, y)) ls)) e
        (In-map (λ y. (k, y)) l ls j))
In-pairs k l (x ∷ ks) ls (inr i) j =
    In-append_right (k, l) (map (λ y. (x, y)) ls) (pairs ks ls) (In-pairs k l ks ls i j)

pub In-of-pairs :
    (k l : Str) (ks ls : List Str) → In {A = Str × Str} (k, l) (pairs ks ls) → In k ks × In l ls
In-of-pairs k l [] ls h = elim h [ ]
In-of-pairs k l (x ∷ ks) ls h =
    elim (In-append-cases (k, l) (map (λ y. (x, y)) ls) (pairs ks ls) h) [
      | inl i ↦
          let (y, j, e) = In-map-cases (λ y. (x, y)) (k, l) ls i in
          (
            inl (ap (λ (p : Str × Str). p.0) e),
            subst (λ z. In z ls) (sym (ap (λ (p : Str × Str). p.1) e)) j,
          )
      | inr i ↦ let (a, b) = In-of-pairs k l ks ls i in (inr a, b)
    ]

map-AreDistinct :
    (k : Str) (ls : List Str) → AreDistinct ls → AreDistinct {A = Str × Str} (map (λ l. (k, l)) ls)
map-AreDistinct k [] d = tt
map-AreDistinct k (l ∷ ls) d = (
  λ i.
      let (y, j, e) = In-map-cases (λ y. (k, y)) (k, l) ls i in
      d.0 (subst (λ z. In z ls) (sym (ap (λ (p : Str × Str). p.1) e)) j),
  map-AreDistinct k ls d.1,
)

pub pairs-AreDistinct :
    (ks ls : List Str) → AreDistinct ks → AreDistinct ls → AreDistinct (pairs ks ls)
pairs-AreDistinct [] ls d e = tt
pairs-AreDistinct (k ∷ ks) ls d e =
    AreDistinct-append (map (λ l. (k, l)) ls) (pairs ks ls) (map-AreDistinct k ls e)
      (pairs-AreDistinct ks ls d.1 e)
      (λ p i j.
        let (y, a, q) = In-map-cases (λ y. (k, y)) p ls i in
        d.0 (In-of-pairs k y ks ls (subst (λ z. In z (pairs ks ls)) q j)).0)

module _ {V : Type 0} where
  pub In-keys-lookup : (k : Str) (m : Map V) → In k (keys m) → lookup k m ≢ none
  unfolding lookup
  In-keys-lookup k [] i = elim i [ ]
  In-keys-lookup k ((j, v) ∷ m) (inl e) = rw (e, eq_refl j) (λ q. cc)
  In-keys-lookup k ((j, v) ∷ m) (inr i) = elim (Bool-cases (eqb j k)) [
    | inl t ↦ rw t (λ q. cc)
    | inr t ↦ rw t (In-keys-lookup k m i)
  ]

  keys-AreDistinct : (m : Map V) → Distinct m → AreDistinct (keys m)
  keys-AreDistinct [] d = tt
  keys-AreDistinct ((k, v) ∷ m) d = ((λ i. In-keys-lookup k m i d.0), keys-AreDistinct m d.1)

  In-keys-insert :
      (k j : Str) (v : V) (m : Map V) → In k (keys (insert j v m)) → (k ≡ j) ⊎ In k (keys m)
  unfolding insert
  In-keys-insert k j v [] (inl e) = inl e
  In-keys-insert k j v [] (inr i) = elim i [ ]
  In-keys-insert k j v ((i, w) ∷ m) h = elim (Bool-cases (eqb i j)) [
    | inl t ↦ elim (let g : In k (j ∷ keys m) = rw (insert, t) at h in g) [
      | inl e ↦ inl e
      | inr r ↦ inr (inr r)
    ]
    | inr t ↦ elim (let g : In k (i ∷ keys (insert j v m)) = rw (insert, t) at h in g) [
      | inl e ↦ inr (inl e)
      | inr r ↦ elim (In-keys-insert k j v m r) [ inl e ↦ inl e | inr q ↦ inr (inr q) ]
    ]
  ]

module _ {S : Type 0} where
  pub groups-Distinct :
      (docs : List (Document S)) (m : Map (List (Document S)))
      → Distinct m
      → Distinct (group_documents m docs)
  unfolding group_documents add_to_group
  groups-Distinct [] m d = d
  groups-Distinct (doc ∷ docs) m d =
      groups-Distinct docs (add_to_group doc m) (insert-Distinct doc.id _ m d)

  pub group_keys-AreDistinct :
      (docs : List (Document S)) → AreDistinct (keys (group_documents [] docs))
  group_keys-AreDistinct docs =
      keys-AreDistinct (group_documents [] docs) (groups-Distinct docs [] tt)

  -- A group has the identifier of a document.
  pub In-group_keys :
      (k : Str) (docs : List (Document S)) (m : Map (List (Document S)))
      → In k (keys (group_documents m docs))
      → In k (keys m) ⊎ In k (map (λ d. d.id) docs)
  unfolding group_documents add_to_group
  In-group_keys k [] m i = inl i
  In-group_keys k (doc ∷ docs) m i = elim (In-group_keys k docs (add_to_group doc m) i) [
    | inr j ↦ inr (inr j)
    | inl j ↦ elim (In-keys-insert k doc.id _ m j) [ inl e ↦ inr (inl e) | inr q ↦ inl q ]
  ]
