-- ===== src/Models/Json.antt =====
-- JSON values, as the JSONB columns and the audit trail hold them.
use doc_grading.Prelude.{ℕ, Bool, String, Option, none, some, str_eq, if◌then◌else◌}

mutual
  pub data Json : Type 0 where
    null : Json
    bool : Bool → Json
    num : ℕ → Json
    str : String → Json
    arr : Items → Json
    obj : Fields → Json

  pub data Items : Type 0 where
    nil : Items
    cons : Json → Items → Items

  pub data Fields : Type 0 where
    end : Fields
    field : String → Json → Fields → Fields

-- `d.get(k)`, where a missing key is `none`
unfoldable pub get : String → Fields → Option Json
get k end = none
get k (field j v r) = if str_eq j k then some v else get k r

-- `d.pop(k, None)`
pub pop : String → Fields → Fields
pop k end = end
pop k (field j v r) = if str_eq j k then pop k r else field j v (pop k r)

abbrev pub str_or_null : Option String → Json
str_or_null none = Json.null
str_or_null (some s) = Json.str s

abbrev pub num_or_null : Option ℕ → Json
num_or_null none = Json.null
num_or_null (some n) = Json.num n
