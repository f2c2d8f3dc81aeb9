-- ===== src/Tests/Json.antt =====
-- encoding/json over values in place of texts.
use spvwallet.Prelude.{
  ℕ, ◌≡◌, refl, sym, ap, ◌∙◌, subst, Option, none, some, some-injective, List, [], ◌∷◌,
}
use spvwallet.Prelude.Int.{pos, pos_part}
use spvwallet.Rest.Json.{
  Value, null, string, number, integer, object, Fields, no_fields, field, JsonLib, JsonLaws,
  candidates, one,
}
use spvwallet.Rest.Json.Tags.{exact}
use Prim.Native.String.{String}
use text.Mathlib.Text.{◌==◌ as same_text}

abbrev read_back : Value ℕ → Value ℕ
read_back (object (field name (integer n) no_fields)) = one name (number (pos_part n))
read_back v = v

abbrev string_in : List (Value ℕ) → Option String
string_in [] = some ""
string_in (string s ∷ []) = some s
string_in _ = none

abbrev uint32_in : List (Value ℕ) → Option ℕ
uint32_in [] = some 0
uint32_in (integer n ∷ []) = some (pos_part n)
uint32_in (number n ∷ []) = some n
uint32_in _ = none

abbrev any_in : List (Value ℕ) → Option (Value ℕ)
any_in [] = some null
any_in (v ∷ []) = some v
any_in _ = none

abbrev inside {ℓ} : {A : Type ℓ} → (List (Value ℕ) → Option A) → String → Value ℕ → Option A
inside f tag (object fs) = f (exact tag fs)
inside f tag _ = none

abbrev pub values : JsonLib
values = record {
  Float = ℕ;
  Text = Value ℕ;
  same_name = same_text;
  float_of = pos_part;
  marshal = some;
  unmarshal = λ v. some (read_back v);
  unmarshal_string = inside string_in;
  unmarshal_uint32 = inside uint32_in;
  unmarshal_any = inside any_in;
}

exact-candidates : (tag : String) (fs : Fields ℕ) → exact tag fs ≡ candidates values tag fs
unfolding exact candidates
exact-candidates tag no_fields = refl
exact-candidates tag (field name v rest) = rw (exact-candidates tag rest) refl

found :
    {A : Type 0} (f : List (Value ℕ) → Option A) (tag : String) (fs : Fields ℕ) (t : Value ℕ)
    (vs : List (Value ℕ))
    → some (object fs) ≡ some t
    → candidates values tag fs ≡ vs
    → inside f tag t ≡ f vs
found f tag fs t vs m is =
    subst (λ x. inside f tag x ≡ f vs) (some-injective m) (ap f (exact-candidates tag fs ∙ is))

pub values-laws : JsonLaws values
values-laws = record {
  same_name-tags = λ a b p q. refl;
  marshals = λ v. (v, refl);
  unmarshal-string = λ name s t m. ap (λ x. some (read_back x)) (sym (some-injective m));
  unmarshal-integer = λ name n t m. ap (λ x. some (read_back x)) (sym (some-injective m));
  unmarshal_string-has = λ tag s fs t m is. found string_in tag fs t (string s ∷ []) m is;
  unmarshal_string-lacks = λ tag fs t m is. found string_in tag fs t [] m is;
  unmarshal_uint32-integer =
      λ tag n fs t low m is. found uint32_in tag fs t (integer (pos n) ∷ []) m is;
  unmarshal_uint32-number = λ tag n fs t low m is. found uint32_in tag fs t (number n ∷ []) m is;
  unmarshal_any-has = λ tag v fs t reads m is. found any_in tag fs t (v ∷ []) m is;
}
