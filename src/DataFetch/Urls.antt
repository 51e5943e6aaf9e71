-- ===== src/DataFetch/Urls.antt =====
-- backend/cmd/data-fetch/main.go: addresses, and those that a JSON body links to. net/url and the case
-- folding of text outside ASCII are arguments.
use civika.Prelude.{Bool, false, ◌&&◌, Option, none, some, List, [], ◌∷◌, ◌++◌, map, if◌then◌else◌}
use civika.Text.{Str, codes, eqb, trim_space, is_ascii, lower_byte}
use civika.Langs.{contains}
use civika.Rag.Metadata.{
  MetaValue, MetaList, MetaMap, nil_value, scalar, list, dict, nil, cons, end, entry, get,
}
use civika.Rag.Json.{JsonScalar, text, number, boolean}

-- What the code reads of a `url.URL`, and the text of it without its fragment.
pub record Url : Type 0 where
  pub scheme : Str
  pub host : Str
  pub without_fragment : Str

pub record UrlOps : Type 0 where
  pub parse : Str → Option Url
  pub folds_wide : Str → Str → Bool

-- `strings.EqualFold`
unfoldable pub equal_fold : UrlOps → Str → Str → Bool
unfolding is_ascii lower_byte
equal_fold ops s t =
    if is_ascii s && is_ascii t
    then eqb (map lower_byte s) (map lower_byte t)
    else ops.folds_wide s t

unfoldable pub canonical_url : UrlOps → Str → Str
unfolding trim_space
canonical_url ops raw = elim (ops.parse (trim_space raw)) [
  | none ↦ trim_space raw
  | some url ↦ url.without_fragment
]

unfoldable pub is_allowed_open_parl_api_url : UrlOps → Str → Bool
unfolding trim_space equal_fold
is_allowed_open_parl_api_url ops raw = elim (ops.parse (trim_space raw)) [
  | none ↦ false
  | some url ↦
      equal_fold ops url.scheme (codes "https")
      && equal_fold ops url.host (codes "api.openparldata.ch")
]

-- `appendURL`; what is in `out` is what the set `seen` holds.
unfoldable pub append_url : List Str → Str → List Str
unfolding trim_space contains
append_url out raw =
    let candidate = trim_space raw in
    if eqb candidate [] then out else if contains out candidate then out else out ++ candidate ∷ []

-- A string value, or nothing.
unfoldable pub string_of : {F : Type 0} → JsonScalar F → Option Str
string_of (text s) = some s
string_of (number x) = none
string_of (boolean b) = none

unfoldable pub append_scalar : Option Str → List Str → List Str
unfolding append_url
append_scalar none out = out
append_scalar (some s) out = append_url out s

module _ {S : Type 0} (as_string : S → Option Str) where
  unfoldable mutual
    unfolding append_scalar

    pub append_string_urls : MetaValue S → List Str → List Str
    append_string_urls nil_value out = out
    append_string_urls (scalar s) out = append_scalar (as_string s) out
    append_string_urls (list xs) out = append_item_urls xs out
    append_string_urls (dict m) out = append_entry_urls m out

    pub append_item_urls : MetaList S → List Str → List Str
    append_item_urls nil out = out
    append_item_urls (cons x xs) out = append_item_urls xs (append_string_urls x out)

    pub append_entry_urls : MetaMap S → List Str → List Str
    append_entry_urls end out = out
    append_entry_urls (entry k v m) out = append_entry_urls m (append_string_urls v out)

  -- The `next_page` of a `meta` object.
  unfoldable pub append_next_page : MetaValue S → List Str → List Str
  unfolding append_scalar get
  append_next_page (dict m) out = elim (get (codes "next_page") m) [
    | some (scalar s) ↦ append_scalar (as_string s) out
    | _ ↦ out
  ]
  append_next_page _ out = out

  module _ (ops : UrlOps) where
    unfoldable mutual
      unfolding append_string_urls append_next_page equal_fold

      pub walk : MetaValue S → List Str → List Str
      walk nil_value out = out
      walk (scalar s) out = out
      walk (list xs) out = walk_items xs out
      walk (dict m) out = walk_entries m out

      pub walk_items : MetaList S → List Str → List Str
      walk_items nil out = out
      walk_items (cons x xs) out = walk_items xs (walk x out)

      pub walk_entries : MetaMap S → List Str → List Str
      walk_entries end out = out
      walk_entries (entry k v m) out =
          let linked = if equal_fold ops k (codes "links") then append_string_urls v out else out in
          let paged =
            if equal_fold ops k (codes "meta") then append_next_page v linked else linked in
          walk_entries m (walk v paged)

-- `extractChildURLs`; `decode` is `json.Unmarshal` into an `any`.
unfoldable pub extract_child_urls :
    {F : Type 0} → UrlOps → (Str → Option (MetaValue (JsonScalar F))) → Str → List Str
unfolding walk string_of
extract_child_urls ops decode body = elim (decode body) [
  | none ↦ []
  | some payload ↦ walk string_of ops payload []
]
