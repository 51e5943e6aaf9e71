-- ===== src/Services/Models.antt =====
-- backend/internal/services/api_models.go: the input and the output of a question. Slices are lists, so
-- that a nil slice and an empty one are the same.
use civika.Prelude.{List}
use civika.Text.{Str}

pub record Citation : Type 0 where
  pub source_type : Str
  pub url : Str
  pub title : Str

pub record QaQueryMeta (F : Type 0) : Type 0 where
  pub confidence : F
  pub used_documents : List Str

pub record QaQueryOutput (F : Type 0) : Type 0 where
  pub answer : Str
  pub language : Str
  pub citations : List Citation
  pub meta : QaQueryMeta F

pub record QaQueryContext : Type 0 where
  pub votation_id : Str
  pub object_id : Str
  pub canton : Str

pub record QaQueryClient : Type 0 where
  pub instance_name : Str
  pub version : Str

pub record QaQueryInput : Type 0 where
  pub question : Str
  pub language : Str
  pub context : QaQueryContext
  pub client : QaQueryClient
