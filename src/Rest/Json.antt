-- ===== src/Rest/Json.antt =====
-- encoding/json as rest/ uses it. The names of fields, which both sides write as tags, are arguments.
pub mod Tags
use spvwallet.Prelude.{
  ℕ, ◌^◌, ◌<◌, ◌≡◌, Bool, true, Option, some, List, [], ◌∷◌, Elem, if◌then◌else◌,
}
use spvwallet.Prelude.Int.{ℤ, pos}
use Prim.Native.String.{String}
use text.Mathlib.Text.{◌==◌ as same_text}

-- A value of Go to or from JSON. `F` is a finite float64, which any number of JSON is read as;
-- `integer` is only written. An object is a map or a struct: of a name that stands twice, the first.
mutual
  pub data Value (F : Type 0) : Type 0 where
    null : Value F
    boolean : Bool → Value F
    string : String → Value F
    number : F → Value F
    integer : ℤ → Value F
    array : Values F → Value F
    object : Fields F → Value F

  pub data Values (F : Type 0) : Type 0 where
    no_values : Values F
    value : Value F → Values F → Values F

  pub data Fields (F : Type 0) : Type 0 where
    no_fields : Fields F
    field : String → Value F → Fields F → Fields F

-- Marshal, and Unmarshal into an interface. The others unmarshal into a struct that has a field of one
-- type with the given tag: its value, which is the zero value where the text has no such field.
-- `same_name` is the comparison of tags, which ignores case; `float_of` is what the text of an integer
-- is read as.
pub record JsonLib : Type 1 where
  pub Float : Type 0
  pub Text : Type 0
  pub same_name : String → String → Bool
  pub float_of : ℤ → Float
  pub marshal : Value Float → Option Text
  pub unmarshal : Text → Option (Value Float)
  pub unmarshal_string : String → Text → Option String
  pub unmarshal_uint32 : String → Text → Option ℕ
  pub unmarshal_any : String → Text → Option (Value Float)

-- The values of the fields whose name a tag takes.
unfoldable pub candidates : (j : JsonLib) → String → Fields j.Float → List (Value j.Float)
candidates j tag no_fields = []
candidates j tag (field name v rest) =
    let later = candidates j tag rest in if j.same_name tag name then v ∷ later else later

abbrev pub one : {F : Type 0} → String → Value F → Value F
one name v = object (field name v no_fields)

-- The tags of the fields that the theorems follow.
abbrev pub tags : List String
tags = "action" ∷ "desc" ∷ "error" ∷ "result" ∷ "height" ∷ "tx" ∷ "raw_tx" ∷ []

-- What Unmarshal gives back as it is.
abbrev pub IsRead : {F : Type 0} → Value F → Type 0
IsRead null = Unit {0}
IsRead (string s) = Unit {0}
IsRead (number x) = Unit {0}
IsRead (object (field name v no_fields)) = IsRead v
IsRead _ = ⊥

-- What encoding/json documents.
pub record JsonLaws (j : JsonLib) : Type 0 where
  pub same_name-tags : (a b : String) → Elem a tags → Elem b tags → j.same_name a b ≡ same_text a b
  pub marshals : (v : Value j.Float) → (t : j.Text) × (j.marshal v ≡ some t)
  pub unmarshal-string :
      (name s : String) (t : j.Text)
      → j.marshal (one name (string s)) ≡ some t
      → j.unmarshal t ≡ some (one name (string s))
  pub unmarshal-integer :
      (name : String) (n : ℤ) (t : j.Text)
      → j.marshal (one name (integer n)) ≡ some t
      → j.unmarshal t ≡ some (one name (number (j.float_of n)))
  pub unmarshal_string-has :
      (tag s : String) (fs : Fields j.Float) (t : j.Text)
      → j.marshal (object fs) ≡ some t
      → candidates j tag fs ≡ string s ∷ []
      → j.unmarshal_string tag t ≡ some s
  pub unmarshal_string-lacks :
      (tag : String) (fs : Fields j.Float) (t : j.Text)
      → j.marshal (object fs) ≡ some t
      → candidates j tag fs ≡ []
      → j.unmarshal_string tag t ≡ some ""
  pub unmarshal_uint32-integer :
      (tag : String) (n : ℕ) (fs : Fields j.Float) (t : j.Text)
      → n < 2 ^ 32
      → j.marshal (object fs) ≡ some t
      → candidates j tag fs ≡ integer (pos n) ∷ []
      → j.unmarshal_uint32 tag t ≡ some n
  pub unmarshal_uint32-number :
      (tag : String) (n : ℕ) (fs : Fields j.Float) (t : j.Text)
      → n < 2 ^ 32
      → j.marshal (object fs) ≡ some t
      → candidates j tag fs ≡ number (j.float_of (pos n)) ∷ []
      → j.unmarshal_uint32 tag t ≡ some n
  pub unmarshal_any-has :
      (tag : String) (v : Value j.Float) (fs : Fields j.Float) (t : j.Text)
      → IsRead v
      → j.marshal (object fs) ≡ some t
      → candidates j tag fs ≡ v ∷ []
      → j.unmarshal_any tag t ≡ some v
