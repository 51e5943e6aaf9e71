-- ===== src/Services/Keys/Laws.antt =====
-- backend/internal/services/qa_cache.go: what the text of a key determines.
use civika.Prelude.{
  ℕ, ◌≡◌, refl, sym, ◌∙◌, ap, false, List, [], ◌∷◌, ◌++◌, All, All-append, ◌==◌, length,
  length-append, arith,
}
use Prim.Native.String.{String}
use civika.Text.{Str, codes, Runtime, trim_space, to_lower, to_upper, join, itoa, split}
use civika.Text.Split.{Lacks, split-append, split_of_Lacks, split-join, join-split}
use civika.Services.Keys.{QaCacheContext, signature_parts, build_context_signature, exact_key_text}

abbrev bar : ℕ
bar = b'|'

-- The fields, as the signature writes them, have no bar.
pub record IsBarFree (rt : Runtime) (ctx : QaCacheContext) : Type 0 where
  pub language : Lacks b'|' (to_lower rt (trim_space ctx.language))
  pub votation_id : Lacks b'|' (trim_space ctx.votation_id)
  pub object_id : Lacks b'|' (trim_space ctx.object_id)
  pub canton : Lacks b'|' (to_upper rt (trim_space ctx.canton))
  pub rag_mode : Lacks b'|' (trim_space ctx.rag_mode)
  pub embedder_name : Lacks b'|' (trim_space ctx.embedder_name)
  pub summarizer_name : Lacks b'|' (trim_space ctx.summarizer_name)
  pub top_k : Lacks b'|' (trim_space (itoa ctx.top_k))

-- Two contexts that differ at most in white space round a field and in the case of the language
-- and the canton.
pub record IsSameContext (rt : Runtime) (a b : QaCacheContext) : Type 0 where
  pub language : to_lower rt (trim_space a.language) ≡ to_lower rt (trim_space b.language)
  pub votation_id : trim_space a.votation_id ≡ trim_space b.votation_id
  pub object_id : trim_space a.object_id ≡ trim_space b.object_id
  pub canton : to_upper rt (trim_space a.canton) ≡ to_upper rt (trim_space b.canton)
  pub rag_mode : trim_space a.rag_mode ≡ trim_space b.rag_mode
  pub embedder_name : trim_space a.embedder_name ≡ trim_space b.embedder_name
  pub summarizer_name : trim_space a.summarizer_name ≡ trim_space b.summarizer_name
  pub top_k : trim_space (itoa a.top_k) ≡ trim_space (itoa b.top_k)

append_inj_left {ℓ} :
    {A : Type ℓ} (xs xs' ys ys' : List A)
    → length xs ≡ length xs'
    → xs ++ ys ≡ xs' ++ ys'
    → (xs ≡ xs') × (ys ≡ ys')
append_inj_left [] [] ys ys' l h = (refl, h)
append_inj_left [] (x ∷ xs') ys ys' l h = absurd (omega arith)
append_inj_left (x ∷ xs) [] ys ys' l h = absurd (omega arith)
append_inj_left (x ∷ xs) (x' ∷ xs') ys ys' l h =
    let (p, q) = append_inj_left xs xs' ys ys' (omega arith) (cc) in (cc, q)

pub append_inj {ℓ} :
    {A : Type ℓ} (xs xs' ys ys' : List A)
    → length ys ≡ length ys'
    → xs ++ ys ≡ xs' ++ ys'
    → (xs ≡ xs') × (ys ≡ ys')
append_inj xs xs' ys ys' l h =
    append_inj_left xs xs' ys ys'
      (omega (arith, ap length h, length-append xs ys, length-append xs' ys')) h

named :
    (label : String) (value : Str)
    → Lacks b'|' (codes label)
    → Lacks b'|' value
    → Lacks b'|' (codes label ++ value)
named label value h k = All-append (λ c. (c == b'|') ≡ false) (codes label) value h k

module _ (rt : Runtime) where
  parts-Lacks :
      (ctx : QaCacheContext) → IsBarFree rt ctx → All (Lacks b'|') (signature_parts rt ctx)
  unfolding signature_parts
  parts-Lacks ctx f = (
    named "lang=" _ (ground arith) f.language,
    (
      named "votation=" _ (ground arith) f.votation_id,
      (
        named "object=" _ (ground arith) f.object_id,
        (
          named "canton=" _ (ground arith) f.canton,
          (
            named "ragMode=" _ (ground arith) f.rag_mode,
            (
              named "embedder=" _ (ground arith) f.embedder_name,
              (
                named "summarizer=" _ (ground arith) f.summarizer_name,
                (named "topK=" _ (ground arith) f.top_k, tt),
              ),
            ),
          ),
        ),
      ),
    ),
  )

  split-signature :
      (ctx : QaCacheContext)
      → IsBarFree rt ctx
      → split (join (codes "|") (signature_parts rt ctx)) b'|' ≡ signature_parts rt ctx
  split-signature ctx f = unfold signature_parts in split-join b'|' _ _ (parts-Lacks ctx f)

  same_length :
      (a b : QaCacheContext)
      → length (signature_parts rt a ++ codes "exact-v1" ∷ [])
        ≡ length (signature_parts rt b ++ codes "exact-v1" ∷ [])
  unfolding signature_parts
  same_length a b = refl

  -- The text of an exact key splits into the question's parts, the context's and the version.
  split-exact_key_text :
      (question : Str) (ctx : QaCacheContext)
      → IsBarFree rt ctx
      → split (exact_key_text rt question ctx) b'|'
        ≡ split (trim_space question) b'|' ++ (signature_parts rt ctx ++ codes "exact-v1" ∷ [])
  unfolding exact_key_text build_context_signature
  split-exact_key_text question ctx f =
      split-append b'|' (trim_space question) _
      ∙ ap (◌++◌ (split (trim_space question) b'|')) (
          split-append b'|' (join (codes "|") (signature_parts rt ctx)) (codes "exact-v1")
          ∙ rw (split-signature ctx f, split_of_Lacks b'|' (codes "exact-v1") (ground arith)))

  fields_eq :
      (a b : QaCacheContext) → signature_parts rt a ≡ signature_parts rt b → IsSameContext rt a b
  unfolding signature_parts
  fields_eq a b h = record {
    language = cc;
    votation_id = cc;
    object_id = cc;
    canton = cc;
    rag_mode = cc;
    embedder_name = cc;
    summarizer_name = cc;
    top_k = cc;
  }

  -- For contexts whose normalised fields have no bar: if the texts that two exact keys are the hashes
  -- of are equal, the trimmed questions are equal and so are the normalised fields of the contexts.
  pub exact_key_text-injective :
      (q r : Str) (a b : QaCacheContext)
      → IsBarFree rt a
      → IsBarFree rt b
      → exact_key_text rt q a ≡ exact_key_text rt r b
      → (trim_space q ≡ trim_space r) × IsSameContext rt a b
  exact_key_text-injective q r a b f g h =
      let (questions, rest) =
        append_inj (split (trim_space q) b'|') (split (trim_space r) b'|') _ _ (same_length a b) (
          sym (split-exact_key_text q a f)
          ∙ (ap (λ t. split t b'|') h ∙ split-exact_key_text r b g)) in
      (
        sym (join-split b'|' (trim_space q))
            ∙ (ap (join (codes "|")) questions ∙ join-split b'|' (trim_space r)),
        fields_eq a b (append_inj _ _ (codes "exact-v1" ∷ []) (codes "exact-v1" ∷ []) refl rest).0,
      )
