-- ===== src/Common/Json.antt =====
-- A value that `json.loads` gives. A real number is kept as its text.
use llm_router.Common.{ℕ, Bool, String, Option, none, some, if◌then◌else◌, ◌==◌, false, string_eq}

-- `negsuc n` is -(n + 1).
pub data ℤ : Type 0 where
  pos : ℕ → ℤ
  negsuc : ℕ → ℤ

mutual
  pub data Json : Type 0 where
    null : Json
    boolean : Bool → Json
    integer : ℤ → Json
    real : String → Json
    text : String → Json
    array : Items → Json
    object : Fields → Json

  pub data Items : Type 0 where
    nil : Items
    cons : Json → Items → Items

  pub data Fields : Type 0 where
    end : Fields
    field : String → Json → Fields → Fields

-- `value.get(key)`
unfoldable pub get_field : String → Fields → Option Json
get_field key end = none
get_field key (field k v fields) = if k == key then some v else get_field key fields

-- `isinstance(value, Mapping)`
unfoldable pub as_object : Option Json → Option Fields
as_object (some (object fields)) = some fields
as_object _ = none

-- `value == literal`
unfoldable pub is_text : String → Option Json → Bool
is_text s (some (text t)) = t == s
is_text s _ = false
