-- ===== src/Rag/Metadata.antt =====
-- backend/internal/rag/metadata.go: metadata values, and the removal of personal data from them. `S` is
-- the type of all values but nil, []any and map[string]any, which `sanitizeMetadataValue` returns as
-- they are.
pub mod Clean
use civika.Prelude.{Bool, Option, none, some, true, false, ◌||◌, List, [], ◌∷◌, if◌then◌else◌}
use civika.Text.{Str, codes, Runtime, eqb, trim_space, to_lower, contains}

mutual
  pub data MetaValue (S : Type 0) : Type 0 where
    nil_value : MetaValue S
    scalar : S → MetaValue S
    list : MetaList S → MetaValue S
    dict : MetaMap S → MetaValue S

  pub data MetaList (S : Type 0) : Type 0 where
    nil : MetaList S
    cons : MetaValue S → MetaList S → MetaList S

  pub data MetaMap (S : Type 0) : Type 0 where
    end : MetaMap S
    entry : Str → MetaValue S → MetaMap S → MetaMap S

-- `out = append(out, clean)` unless it is nil.
unfoldable pub cons_clean : {S : Type 0} → MetaValue S → MetaList S → MetaList S
cons_clean nil_value l = l
cons_clean (scalar s) l = cons (scalar s) l
cons_clean (list xs) l = cons (list xs) l
cons_clean (dict m) l = cons (dict m) l

-- `out[k] = clean` unless it is nil.
unfoldable pub entry_clean : {S : Type 0} → Str → MetaValue S → MetaMap S → MetaMap S
entry_clean k nil_value m = m
entry_clean k (scalar s) m = entry k (scalar s) m
entry_clean k (list xs) m = entry k (list xs) m
entry_clean k (dict d) m = entry k (dict d) m

unfoldable pub is_sensitive_metadata_key : Runtime → Str → Bool
unfolding contains to_lower trim_space
is_sensitive_metadata_key rt key =
    let k = to_lower rt (trim_space key) in
    contains k (codes "email") || contains k (codes "contact")

unfoldable mutual
  unfolding cons_clean entry_clean

  pub sanitize_metadata_value : {S : Type 0} → Runtime → MetaValue S → MetaValue S
  sanitize_metadata_value rt nil_value = nil_value
  sanitize_metadata_value rt (scalar s) = scalar s
  sanitize_metadata_value rt (list xs) = list (sanitize_items rt xs)
  sanitize_metadata_value rt (dict m) = dict (sanitize_metadata_map rt m)

  pub sanitize_items : {S : Type 0} → Runtime → MetaList S → MetaList S
  sanitize_items rt nil = nil
  sanitize_items rt (cons x xs) = cons_clean (sanitize_metadata_value rt x) (sanitize_items rt xs)

  pub sanitize_metadata_map : {S : Type 0} → Runtime → MetaMap S → MetaMap S
  sanitize_metadata_map rt end = end
  sanitize_metadata_map rt (entry k v m) =
      if is_sensitive_metadata_key rt k
      then sanitize_metadata_map rt m
      else entry_clean k (sanitize_metadata_value rt v) (sanitize_metadata_map rt m)

-- `m[k] = v` on a map that is no longer shared.
unfoldable pub put : {S : Type 0} → Str → MetaValue S → MetaMap S → MetaMap S
put k v end = entry k v end
put k v (entry j w m) = if eqb j k then entry k v m else entry j w (put k v m)

-- `m[k]`
unfoldable pub get : {S : Type 0} → Str → MetaMap S → Option (MetaValue S)
get k end = none
get k (entry j w m) = if eqb j k then some w else get k m
