-- ===== src/Rag/Json.antt =====
-- What encoding/json decodes into an `any`, and the readings of such a value in
-- backend/internal/rag/translate.go and usage_metrics.go. `F` stands for float64.
use civika.Prelude.{Bool, Option, none, some, []}
use civika.Prelude.Int.{ℤ, pos}
use civika.Text.{Str, trim_space}
use civika.Text.Atoi.{atoi}
use civika.Float.{FloatOps}
use civika.Rag.Metadata.{MetaValue, MetaMap, nil_value, scalar, list, dict, get}

pub data JsonScalar (F : Type 0) : Type 0 where
  text : Str → JsonScalar F
  number : F → JsonScalar F
  boolean : Bool → JsonScalar F

abbrev pub JsonValue : Type 0 → Type 0
JsonValue F = MetaValue (JsonScalar F)

abbrev pub JsonMap : Type 0 → Type 0
JsonMap F = MetaMap (JsonScalar F)

-- encoding/json and fmt: `json.Unmarshal` of a body into a map and into a struct with one field
-- `usage`, and `fmt.Sprint`.
pub record JsonOps (F : Type 0) : Type 0 where
  pub decode : Str → Option (JsonMap F)
  pub decode_usage : Str → Option (JsonMap F)
  pub sprint : JsonValue F → Str

-- `m[k]` of a `map[string]any`: nil for a missing key.
unfoldable pub at : {F : Type 0} → Str → JsonMap F → JsonValue F
unfolding get
at k m = elim (get k m) [ none ↦ nil_value | some v ↦ v ]

unfoldable pub any_to_string : {F : Type 0} → JsonOps F → JsonValue F → Str
any_to_string js (scalar (text s)) = s
any_to_string js nil_value = []
any_to_string js (scalar (number x)) = js.sprint (scalar (number x))
any_to_string js (scalar (boolean b)) = js.sprint (scalar (boolean b))
any_to_string js (list xs) = js.sprint (list xs)
any_to_string js (dict m) = js.sprint (dict m)

unfoldable pub int_from_any : {F F32 : Type 0} → FloatOps F F32 → JsonValue F → ℤ
unfolding atoi trim_space
int_from_any fl (scalar (number x)) = fl.to_int x
int_from_any fl (scalar (text s)) = elim (atoi (trim_space s)) [ none ↦ pos 0 | some n ↦ n ]
int_from_any fl (scalar (boolean b)) = pos 0
int_from_any fl nil_value = pos 0
int_from_any fl (list xs) = pos 0
int_from_any fl (dict m) = pos 0
