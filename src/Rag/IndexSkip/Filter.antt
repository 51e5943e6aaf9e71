-- ===== src/Rag/IndexSkip/Filter.antt =====
-- backend/internal/rag/index_skip.go: the documents that the filter lets through, and its report.
use civika.Prelude.{
  ℕ, suc, ◌+◌, ◌-◌, ◌≡◌, ◌↔◌, refl, sym, ◌∙◌, ap, false, none, some, List, [], ◌∷◌, ◌++◌, inl, inr,
  Bool-cases, length, if◌then◌else◌, arith, keep, In, In-append_left, In-append_right,
  In-append-cases, In-keep, In-of-keep, append_assoc, append-nil,
}
use native.Mathlib.Nat.{zero-add}
use civika.Prelude.Sort.{sort_slice, insert_sorted}
use civika.Text.{Str, eqb, Runtime, str_lt}
use civika.Text.Laws.{eqb_iff, eq_refl}
use civika.Float.{FloatOps}
use civika.GoMap.{Map, lookup, keys, lookup-insert}
use civika.Rag.Document.{Document, ChunkConfig}
use civika.Rag.IndexState.{IndexDocumentState, IndexSkipReport}
use civika.Rag.Fingerprint.{prepare_documents_for_index}
use civika.Rag.IndexSkip.{
  add_to_group, group_documents, group_of, is_skipped, filter_loop, filter_documents_for_index,
}

module _ {S : Type 0} where
  -- The documents with an id, in their order.
  abbrev pub with_id : Str → List (Document S) → List (Document S)
  with_id doc_id = keep (λ d. eqb d.id doc_id)

  group_of-add_to_group :
      (doc : Document S) (grouped : Map (List (Document S))) (doc_id : Str)
      → group_of (add_to_group doc grouped) doc_id
        ≡ group_of grouped doc_id ++ with_id doc_id (doc ∷ [])
  unfolding group_of add_to_group
  group_of-add_to_group doc grouped doc_id = ground (
    arith,
    eqb_iff doc.id doc_id,
    lookup-insert doc.id doc_id
        (elim (lookup doc.id grouped) [ none ↦ doc ∷ [] | some docs ↦ docs ++ doc ∷ [] ]) grouped,
    append-nil (group_of grouped doc_id),
  )

  pub group_of-group_documents :
      (docs : List (Document S)) (grouped : Map (List (Document S))) (doc_id : Str)
      → group_of (group_documents grouped docs) doc_id
        ≡ group_of grouped doc_id ++ with_id doc_id docs
  unfolding group_documents
  group_of-group_documents [] grouped doc_id = sym (append-nil _)
  group_of-group_documents (d ∷ docs) grouped doc_id =
      group_of-group_documents docs (add_to_group d grouped) doc_id
      ∙ (ap (λ g. g ++ with_id doc_id docs) (group_of-add_to_group d grouped doc_id)
          ∙ elim (Bool-cases (eqb d.id doc_id)) [
            | inl e ↦ rw e (append_assoc (group_of grouped doc_id) (d ∷ []) (with_id doc_id docs))
            | inr e ↦ rw (e, append-nil (group_of grouped doc_id)) refl
          ])

  -- A group is the documents with its id.
  pub groups-with_id :
      (docs : List (Document S)) (doc_id : Str)
      → group_of (group_documents [] docs) doc_id ≡ with_id doc_id docs
  groups-with_id docs doc_id = group_of-group_documents docs [] doc_id ∙ no_group doc_id
    where
      no_group : (i : Str) → group_of [] i ++ with_id i docs ≡ with_id i docs
      no_group i = unfold group_of lookup in refl

  pub In-keys :
      (doc_id : Str) (grouped : Map (List (Document S))) (d : Document S)
      → In d (group_of grouped doc_id)
      → In doc_id (keys grouped)
  unfolding group_of lookup
  In-keys doc_id [] d h = elim h [ ]
  In-keys doc_id ((j, docs) ∷ grouped) d h = elim (Bool-cases (eqb j doc_id)) [
    | inl e ↦ inl (sym ((eqb_iff j doc_id).0 e))
    | inr e ↦ inr (In-keys doc_id grouped d (rw (e, group_of, lookup) at h))
  ]

In-insert_sorted : (x a : Str) (l : List Str) → In a (x ∷ l) → In a (insert_sorted str_lt x l)
unfolding insert_sorted
In-insert_sorted x a [] h = h
In-insert_sorted x a (y ∷ l) h = elim (Bool-cases (str_lt y x)) [
  | inr e ↦ rw e h
  | inl e ↦ rw e (elim h [
    | inl p ↦ inr (In-insert_sorted x a l (inl p))
    | inr (inl p) ↦ inl p
    | inr (inr p) ↦ inr (In-insert_sorted x a l (inr p))
  ])
]

In-sort : (a : Str) (l : List Str) → In a l → In a (sort_slice str_lt l)
unfolding sort_slice
In-sort a [] h = h
In-sort a (x ∷ l) (inl e) = In-insert_sorted x a (sort_slice str_lt l) (inl e)
In-sort a (x ∷ l) (inr h) = In-insert_sorted x a (sort_slice str_lt l) (inr (In-sort a l h))

length-insert_sorted : (x : Str) (l : List Str) → length (insert_sorted str_lt x l) ≡ suc (length l)
unfolding insert_sorted
length-insert_sorted x [] = refl
length-insert_sorted x (y ∷ l) = ground (arith, length-insert_sorted x l)

length-sort : (l : List Str) → length (sort_slice str_lt l) ≡ length l
unfolding sort_slice
length-sort [] = refl
length-sort (x ∷ l) = length-insert_sorted x (sort_slice str_lt l) ∙ ap suc (length-sort l)

length-keys : {V : Type 0} (m : Map V) → length (keys m) ≡ length m
length-keys [] = refl
length-keys (e ∷ m) = ap suc (length-keys m)

add_zero : (m : ℕ) → m ≡ m + 0
add_zero m = omega arith

shift : (m k : ℕ) → m + 1 + k ≡ m + suc k
shift m k = omega arith

module _ {S F F32 : Type 0} (rt : Runtime) (fl : FloatOps F F32) (supported : List Str) (mode : Str)
    (cfg : ChunkConfig F) (existing : Map IndexDocumentState) where
  -- The groups that are not skipped, one after the other, and the number of the others.
  collect : Map (List (Document S)) → List Str → List (Document S)
  collect grouped [] = []
  collect grouped (i ∷ ids) =
      if is_skipped rt fl supported mode cfg existing i (group_of grouped i)
      then collect grouped ids
      else group_of grouped i ++ collect grouped ids

  abbrev pub count_skipped : Map (List (Document S)) → List Str → ℕ
  count_skipped grouped [] = 0
  count_skipped grouped (i ∷ ids) =
      if is_skipped rt fl supported mode cfg existing i (group_of grouped i)
      then suc (count_skipped grouped ids)
      else count_skipped grouped ids

  abbrev pub count_kept : Map (List (Document S)) → List Str → ℕ
  count_kept grouped [] = 0
  count_kept grouped (i ∷ ids) =
      if is_skipped rt fl supported mode cfg existing i (group_of grouped i)
      then count_kept grouped ids
      else suc (count_kept grouped ids)

  filter_loop-collect :
      (grouped : Map (List (Document S))) (ids : List Str) (out : List (Document S)) (n : ℕ)
      → filter_loop rt fl supported mode cfg existing grouped ids out n
        ≡ (out ++ collect grouped ids, n + count_skipped grouped ids)
  unfolding filter_loop collect
  filter_loop-collect grouped [] out n = λ i. (sym (append-nil out) i, add_zero n i)
  filter_loop-collect grouped (j ∷ ids) out n =
      elim (Bool-cases (is_skipped rt fl supported mode cfg existing j (group_of grouped j))) [
        | inl e ↦ rw e (
            filter_loop-collect grouped ids out (n + 1) ∙ λ i.
            (out ++ collect grouped ids, shift n (count_skipped grouped ids) i))
        | inr e ↦ rw e (
            filter_loop-collect grouped ids (out ++ group_of grouped j) n ∙ λ i. (
              append_assoc out (group_of grouped j) (collect grouped ids) i,
              n + count_skipped grouped ids,
            ))
      ]

  In-collect :
      (grouped : Map (List (Document S))) (ids : List Str) (i : Str) (d : Document S)
      → In i ids
      → is_skipped rt fl supported mode cfg existing i (group_of grouped i) ≡ false
      → In d (group_of grouped i)
      → In d (collect grouped ids)
  unfolding collect
  In-collect grouped [] i d h k m = elim h [ ]
  In-collect grouped (j ∷ ids) i d (inl e) k m =
      rw (ap (λ x. is_skipped rt fl supported mode cfg existing x (group_of grouped x)) (sym e) ∙ k)
        (In-append_left d (group_of grouped j) (collect grouped ids)
          (rw (ap (λ x. In d (group_of grouped x)) e) at m))
  In-collect grouped (j ∷ ids) i d (inr h) k m =
      elim (Bool-cases (is_skipped rt fl supported mode cfg existing j (group_of grouped j))) [
        | inl e ↦ rw e (In-collect grouped ids i d h k m)
        | inr e ↦ rw e (
            In-append_right d (group_of grouped j) (collect grouped ids)
              (In-collect grouped ids i d h k m))
      ]

  In-of-collect :
      (grouped : Map (List (Document S))) (ids : List Str) (d : Document S)
      → In d (collect grouped ids)
      → (i : Str) × (is_skipped rt fl supported mode cfg existing i (group_of grouped i) ≡ false)
        × In d (group_of grouped i)
  unfolding collect
  In-of-collect grouped [] d h = elim h [ ]
  In-of-collect grouped (j ∷ ids) d h =
      elim (Bool-cases (is_skipped rt fl supported mode cfg existing j (group_of grouped j))) [
        | inl e ↦ In-of-collect grouped ids d (rw (e, collect) at h)
        | inr e ↦
            elim (In-append-cases d (group_of grouped j) (collect grouped ids)
              (rw (e, collect) at h)) [
                | inl here ↦ (j, e, here)
                | inr there ↦ In-of-collect grouped ids d there
              ]
      ]

  counts :
      (grouped : Map (List (Document S))) (ids : List Str)
      → count_skipped grouped ids + count_kept grouped ids ≡ length ids
  counts grouped [] = omega arith
  counts grouped (i ∷ ids) = ground (arith, counts grouped ids)

  module _ (text : Str → S) (documents : List (Document S)) where
    abbrev pub prepared : List (Document S)
    prepared = prepare_documents_for_index rt text documents

    abbrev pub groups : Map (List (Document S))
    groups = group_documents [] prepared

    abbrev pub sorted_ids : List Str
    sorted_ids = sort_slice str_lt (keys groups)

    filtered : filter_documents_for_index rt fl supported mode cfg existing text documents ≡ (
      collect groups sorted_ids,
      record {
        grouped_documents = length groups;
        skipped_documents = count_skipped groups sorted_ids;
        processed_docs = length groups - count_skipped groups sorted_ids;
      },
    )
    unfolding filter_documents_for_index
    filtered = rw (filter_loop-collect groups sorted_ids [] 0, zero-add)

    -- For all documents, settings and states of the index: a document is in the result of
    -- FilterDocumentsForIndex exactly if it is one of the prepared documents and the group of the
    -- prepared documents with its id is not skipped.
    pub In-filter_documents_for_index :
        (d : Document S)
        → In d (filter_documents_for_index rt fl supported mode cfg existing text documents).0 ↔ (
            In d (prepare_documents_for_index rt text documents)
            × (is_skipped rt fl supported mode cfg existing d.id
                  (with_id d.id (prepare_documents_for_index rt text documents))
                ≡ false))
    In-filter_documents_for_index d = (
      λ h.
          let (i, kept, member) =
            In-of-collect groups sorted_ids d
              (let g : In d (collect groups sorted_ids) = rw filtered at h in g) in
          let (there, same) =
            In-of-keep d (λ (x : Document S). eqb x.id i) prepared
              (rw (groups-with_id prepared i) at member) in
          let id : d.id ≡ i = (eqb_iff d.id i).0 same in
          (there, rw id (rw (groups-with_id prepared i) at kept)),
      λ (there, kept).
          let member : In d (with_id d.id prepared) =
            In-keep d (λ (x : Document S). eqb x.id d.id) prepared (eq_refl d.id) there in
          let grouped : In d (group_of groups d.id) = rw (groups-with_id prepared d.id) member in
          rw filtered (
            In-collect groups sorted_ids d.id d
              (In-sort d.id (keys groups) (In-keys d.id groups d grouped))
              (rw (groups-with_id prepared d.id) kept) grouped),
    )

    -- The counts of the groups: those that are skipped, those that are not, and all.
    abbrev pub IsReport : IndexSkipReport → Type 0
    IsReport report =
        (report.skipped_documents ≡ count_skipped groups sorted_ids)
        × (report.processed_docs ≡ count_kept groups sorted_ids)
        × (report.grouped_documents
            ≡ count_skipped groups sorted_ids + count_kept groups sorted_ids)

    -- For all documents, settings and states of the index: the report counts as skipped the groups
    -- that are skipped, as processed the groups that are not, and as grouped the sum of the two.
    pub filter_documents_for_index-IsReport :
        IsReport (filter_documents_for_index rt fl supported mode cfg existing text documents).1
    filter_documents_for_index-IsReport =
        rw filtered
          (omega (arith, counts groups sorted_ids, length-sort (keys groups), length-keys groups))
