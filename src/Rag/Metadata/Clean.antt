-- ===== src/Rag/Metadata/Clean.antt =====
-- backend/internal/rag/metadata.go: sanitised metadata.
use civika.Prelude.{◌≡◌, refl, ap, false, Bool-cases, inl, inr}
use civika.Text.{Str, Runtime}
use civika.Rag.Metadata.{
  MetaValue, nil_value, scalar, list, dict, MetaList, nil, cons, MetaMap, end, entry, cons_clean,
  entry_clean, is_sensitive_metadata_key, sanitize_metadata_value, sanitize_items,
  sanitize_metadata_map,
}

abbrev pub IsNotNil : {S : Type 0} → MetaValue S → Type 0
IsNotNil nil_value = ⊥
IsNotNil (scalar s) = Unit
IsNotNil (list xs) = Unit
IsNotNil (dict m) = Unit

-- No sensitive key and no nil inside, at any depth.
abbrev mutual
  pub IsClean : {S : Type 0} → Runtime → MetaValue S → Type 0
  IsClean rt nil_value = Unit
  IsClean rt (scalar s) = Unit
  IsClean rt (list xs) = AreClean rt xs
  IsClean rt (dict m) = HasCleanKeys rt m

  pub AreClean : {S : Type 0} → Runtime → MetaList S → Type 0
  AreClean rt nil = Unit
  AreClean rt (cons x xs) = IsNotNil x × IsClean rt x × AreClean rt xs

  pub HasCleanKeys : {S : Type 0} → Runtime → MetaMap S → Type 0
  HasCleanKeys rt end = Unit
  HasCleanKeys rt (entry k v m) =
      (is_sensitive_metadata_key rt k ≡ false) × IsNotNil v × IsClean rt v × HasCleanKeys rt m

module _ {S : Type 0} (rt : Runtime) where
  cons_clean-AreClean :
      (x : MetaValue S) (xs : MetaList S)
      → IsClean rt x
      → AreClean rt xs
      → AreClean rt (cons_clean x xs)
  unfolding cons_clean
  cons_clean-AreClean nil_value xs h k = k
  cons_clean-AreClean (scalar s) xs h k = (tt, h, k)
  cons_clean-AreClean (list ys) xs h k = (tt, h, k)
  cons_clean-AreClean (dict m) xs h k = (tt, h, k)

  entry_clean-HasCleanKeys :
      (key : Str) (x : MetaValue S) (m : MetaMap S)
      → is_sensitive_metadata_key rt key ≡ false
      → IsClean rt x
      → HasCleanKeys rt m
      → HasCleanKeys rt (entry_clean key x m)
  unfolding entry_clean
  entry_clean-HasCleanKeys key nil_value m e h k = k
  entry_clean-HasCleanKeys key (scalar s) m e h k = (e, tt, h, k)
  entry_clean-HasCleanKeys key (list ys) m e h k = (e, tt, h, k)
  entry_clean-HasCleanKeys key (dict d) m e h k = (e, tt, h, k)

  mutual
    unfolding sanitize_metadata_value

    sanitize_metadata_value-IsClean : (v : MetaValue S) → IsClean rt (sanitize_metadata_value rt v)
    sanitize_metadata_value-IsClean nil_value = tt
    sanitize_metadata_value-IsClean (scalar s) = tt
    sanitize_metadata_value-IsClean (list xs) = items_clean xs
    sanitize_metadata_value-IsClean (dict m) = map_clean m

    items_clean : (xs : MetaList S) → AreClean rt (sanitize_items rt xs)
    items_clean nil = tt
    items_clean (cons x xs) =
        cons_clean-AreClean (sanitize_metadata_value rt x) (sanitize_items rt xs)
          (sanitize_metadata_value-IsClean x) (items_clean xs)

    map_clean : (m : MetaMap S) → HasCleanKeys rt (sanitize_metadata_map rt m)
    map_clean end = tt
    map_clean (entry k v m) = elim (Bool-cases (is_sensitive_metadata_key rt k)) [
      | inl e ↦ rw e (map_clean m)
      | inr e ↦ rw e (
          entry_clean-HasCleanKeys k (sanitize_metadata_value rt v) (sanitize_metadata_map rt m) e
            (sanitize_metadata_value-IsClean v) (map_clean m))
    ]

  cons_clean_of_IsNotNil :
      (x : MetaValue S) (xs : MetaList S) → IsNotNil x → cons_clean x xs ≡ cons x xs
  unfolding cons_clean
  cons_clean_of_IsNotNil nil_value xs h = elim h [ ]
  cons_clean_of_IsNotNil (scalar s) xs h = refl
  cons_clean_of_IsNotNil (list ys) xs h = refl
  cons_clean_of_IsNotNil (dict m) xs h = refl

  entry_clean_of_IsNotNil :
      (k : Str) (x : MetaValue S) (m : MetaMap S) → IsNotNil x → entry_clean k x m ≡ entry k x m
  unfolding entry_clean
  entry_clean_of_IsNotNil k nil_value m h = elim h [ ]
  entry_clean_of_IsNotNil k (scalar s) m h = refl
  entry_clean_of_IsNotNil k (list ys) m h = refl
  entry_clean_of_IsNotNil k (dict d) m h = refl

  -- What is clean is left as it is.
  mutual
    unfolding sanitize_metadata_value

    value_kept : (v : MetaValue S) → IsClean rt v → sanitize_metadata_value rt v ≡ v
    value_kept nil_value h = refl
    value_kept (scalar s) h = refl
    value_kept (list xs) h = ap list (items_kept xs h)
    value_kept (dict m) h = ap dict (map_kept m h)

    items_kept : (xs : MetaList S) → AreClean rt xs → sanitize_items rt xs ≡ xs
    items_kept nil h = refl
    items_kept (cons x xs) (a, b, c) =
        rw (value_kept x b, items_kept xs c) (cons_clean_of_IsNotNil x xs a)

    map_kept : (m : MetaMap S) → HasCleanKeys rt m → sanitize_metadata_map rt m ≡ m
    map_kept end h = refl
    map_kept (entry k v m) (e, a, b, c) =
        rw (e, value_kept v b, map_kept m c) (entry_clean_of_IsNotNil k v m a)

  -- Sanitised metadata has no key that names an e-mail or a contact and no nil, however deep the maps
  -- and lists are nested.
  pub sanitize_metadata_map-HasCleanKeys :
      (m : MetaMap S) → HasCleanKeys rt (sanitize_metadata_map rt m)
  sanitize_metadata_map-HasCleanKeys m = map_clean m

  -- To sanitise metadata twice is to sanitise it once.
  pub sanitize_metadata_map_idempotent :
      (m : MetaMap S)
      → sanitize_metadata_map rt (sanitize_metadata_map rt m) ≡ sanitize_metadata_map rt m
  sanitize_metadata_map_idempotent m = map_kept (sanitize_metadata_map rt m) (map_clean m)
