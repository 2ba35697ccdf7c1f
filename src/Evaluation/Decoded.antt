-- ===== src/Evaluation/Decoded.antt =====
-- src/llm_router/evaluation/codec.py: reading a JSON value back. A `KeyError`, `TypeError` or `ValueError` is
-- reported as a CodecError, which is `incompatible`; an `AttributeError` is not caught; and a value of a type
-- other than its field's, which some decoders take as it is, is `untyped` and followed no further.
use llm_router.Domain.{Capability}
use llm_router.Domain.Values.{to_capability}
use llm_router.Common.{
  Option, String, any, Bool, some, List, all, ℕ, none, true, ◌==◌, false, [], ◌&&◌, ◌*◌, ◌∷◌,
  string_eq,
}
use llm_router.Common.Json.{
  Json, get_field, Items, Fields, object, text, boolean, array, integer, real, null, field, pos,
  cons, nil, end,
}
use Prim.Native.String.{String}

pub data Decoded {ℓ} (A : Type ℓ) : Type ℓ where
  decoded : A → Decoded A
  incompatible attribute_error untyped : Decoded A

infixl 5 ◌>>=◌ ◌>>◌
abbrev pub ◌>>=◌ : {A B : Type 0} → Decoded A → (A → Decoded B) → Decoded B
decoded a >>= f = f a
incompatible >>= f = incompatible
attribute_error >>= f = attribute_error
untyped >>= f = untyped

abbrev pub ◌>>◌ : {B : Type 0} → Decoded (Unit {0}) → Decoded B → Decoded B
step >> next = step >>= λ _. next

-- `if not test: raise CodecError`
abbrev pub expects : Bool → Decoded (Unit {0})
expects true = decoded tt
expects false = incompatible

-- `value[key]`
abbrev pub or_missing : Option Json → Decoded Json
or_missing none = incompatible
or_missing (some j) = decoded j

unfoldable pub member : String → Fields → Decoded Json
unfolding get_field
member key fields = or_missing (get_field key fields)

unfoldable pub keys : Fields → List String
keys end = []
keys (field k v fields) = k ∷ keys fields

-- `_check_keys`
unfoldable pub check_keys : List String → Fields → Decoded (Unit {0})
unfolding keys any all
check_keys expected fields = expects (
    all (λ k. any (λ e. e == k) expected) (keys fields)
    && all (λ e. any (λ k. k == e) (keys fields)) expected)

-- `value.items()` or the members of a mapping
unfoldable pub mapping : Json → Decoded Fields
mapping (object fields) = decoded fields
mapping _ = attribute_error

-- `if not isinstance(value, dict): raise CodecError`
unfoldable pub dictionary : Json → Decoded Fields
dictionary (object fields) = decoded fields
dictionary _ = incompatible

unfoldable pub as_text : Json → Decoded String
as_text (text s) = decoded s
as_text _ = untyped

unfoldable pub as_boolean : Json → Decoded Bool
as_boolean (boolean b) = decoded b
as_boolean _ = untyped

unfoldable pub as_count : Json → Decoded ℕ
as_count (integer (pos n)) = decoded n
as_count _ = untyped

unfoldable pub as_items : Json → Decoded Items
as_items (array items) = decoded items
as_items _ = untyped

-- An optional text: `null`, or a text.
unfoldable pub as_optional_text : Json → Decoded (Option String)
as_optional_text null = decoded none
as_optional_text (text s) = decoded (some s)
as_optional_text _ = untyped

-- `Enumeration(value)`: a value that is no text of a member is a `ValueError`.
abbrev pub or_invalid {ℓ} : {A : Type ℓ} → Option A → Decoded A
or_invalid none = incompatible
or_invalid (some a) = decoded a

unfoldable pub as_member : {A : Type 0} → (String → Option A) → Json → Decoded A
as_member of (text s) = or_invalid (of s)
as_member of _ = incompatible

unfoldable pub as_texts : Items → Decoded (List String)
unfolding as_text
as_texts nil = decoded []
as_texts (cons j js) = do s ← as_text j; ss ← as_texts js; decoded (s ∷ ss)

unfoldable pub as_capabilities : Items → Decoded (List Capability)
unfolding as_member to_capability
as_capabilities nil = decoded []
as_capabilities (cons j js) = do
  c ← as_member to_capability j
  cs ← as_capabilities js
  decoded (c ∷ cs)

-- A float in millionths or microseconds. `float_value` reads the text of one.
unfoldable pub as_number : (String → Option ℕ) → Json → Decoded ℕ
as_number float_value (real s) = elim (float_value s) [ none ↦ untyped | some n ↦ decoded n ]
as_number float_value (integer (pos n)) = decoded (n * 1000000)
as_number float_value _ = untyped

unfoldable pub as_optional_number : (String → Option ℕ) → Option Json → Decoded (Option ℕ)
unfolding as_number
as_optional_number float_value none = decoded none
as_optional_number float_value (some null) = decoded none
as_optional_number float_value (some j) = do n ← as_number float_value j; decoded (some n)
