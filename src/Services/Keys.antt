-- ===== src/Services/Keys.antt =====
-- backend/internal/services/qa_cache.go: the text that identifies the context of a question, and the
-- keys that are its hashes.
pub mod Laws
use civika.Prelude.{List, [], ◌∷◌, ◌++◌}
use civika.Prelude.Int.{ℤ}
use civika.Text.{Str, codes, Runtime, trim_space, to_lower, to_upper, join, itoa, hex}

pub record QaCacheContext : Type 0 where
  pub language : Str
  pub votation_id : Str
  pub object_id : Str
  pub canton : Str
  pub rag_mode : Str
  pub embedder_name : Str
  pub summarizer_name : Str
  pub top_k : ℤ

module _ (rt : Runtime) where
  unfoldable pub hash_string : Str → Str
  unfolding hex
  hash_string value = hex (rt.sha256 value)

  unfoldable pub signature_parts : QaCacheContext → List Str
  unfolding trim_space to_lower to_upper itoa
  signature_parts ctx =
      (codes "lang=" ++ to_lower rt (trim_space ctx.language))
      ∷ (codes "votation=" ++ trim_space ctx.votation_id)
      ∷ (codes "object=" ++ trim_space ctx.object_id)
      ∷ (codes "canton=" ++ to_upper rt (trim_space ctx.canton))
      ∷ (codes "ragMode=" ++ trim_space ctx.rag_mode)
      ∷ (codes "embedder=" ++ trim_space ctx.embedder_name)
      ∷ (codes "summarizer=" ++ trim_space ctx.summarizer_name)
      ∷ (codes "topK=" ++ trim_space (itoa ctx.top_k))
      ∷ []

  unfoldable pub build_context_signature : QaCacheContext → Str
  unfolding signature_parts join
  build_context_signature ctx = join (codes "|") (signature_parts ctx)

  unfoldable pub build_context_hash : QaCacheContext → Str
  unfolding hash_string build_context_signature
  build_context_hash ctx = hash_string (build_context_signature ctx)

  -- What the exact key is the hash of.
  unfoldable pub exact_key_text : Str → QaCacheContext → Str
  unfolding build_context_signature trim_space
  exact_key_text question ctx =
      trim_space question ++ (codes "|" ++ (build_context_signature ctx ++ codes "|exact-v1"))

  unfoldable pub build_exact_cache_key : Str → QaCacheContext → Str
  unfolding hash_string exact_key_text
  build_exact_cache_key question ctx = hash_string (exact_key_text question ctx)

  unfoldable pub build_semantic_cache_key : Str → Str → Str
  unfolding hash_string
  build_semantic_cache_key question_hash context_hash =
      hash_string (question_hash ++ (codes "|" ++ (context_hash ++ codes "|semantic-v1")))
