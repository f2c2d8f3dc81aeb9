-- ===== src/Rest/Json/Tags.antt =====
-- Which field a tag takes, among the names that the two sides of the REST service use.
use spvwallet.Prelude.{◌≡◌, refl, List, [], ◌∷◌, Elem, if◌then◌else◌}
use spvwallet.Rest.Json.{JsonLib, JsonLaws, Value, Fields, no_fields, field, candidates, tags}
use Prim.Native.String.{String}
use text.Mathlib.Text.{◌==◌ as same_text}

-- The values of the fields of exactly that name.
unfoldable pub exact : {F : Type 0} → String → Fields F → List (Value F)
exact tag no_fields = []
exact tag (field name v rest) =
    let later = exact tag rest in if same_text tag name then v ∷ later else later

abbrev pub Tagged : {F : Type 0} → Fields F → Type 0
Tagged no_fields = Unit {0}
Tagged (field name v rest) = Elem name tags × Tagged rest

pub candidates-exact :
    (j : JsonLib) (laws : JsonLaws j) (tag : String) (fs : Fields j.Float)
    → Elem tag tags
    → Tagged fs
    → candidates j tag fs ≡ exact tag fs
unfolding candidates exact
candidates-exact j laws tag no_fields known t = refl
candidates-exact j laws tag (field name v rest) known (is, t) =
    rw (laws.same_name-tags tag name known is, candidates-exact j laws tag rest known t) refl
