-- ===== src/Json.antt =====
-- JSON values, as `json` and PostgreSQL's JSONB hand them to the program.
use expo_fastapi_todo.Prelude.{
  ℕ, ◌≡◌, refl, ap, Bool, ◌&&◌, Option, none, some, List, [], ◌∷◌, Text, text_eq, if◌then◌else◌,
  any, all, map,
}

-- The items of an array and the entries of an object are lists of their own. A number with a
-- fraction or an exponent is kept as its literal; `negative n` is the integer -(n + 1).
mutual
  pub data Json : Type 0 where
    null : Json
    boolean : Bool → Json
    num negative : ℕ → Json
    real : Text → Json
    text : Text → Json
    arr : Items → Json
    obj : Fields → Json

  pub data Items : Type 0 where
    nil : Items
    cons : Json → Items → Items

  pub data Fields : Type 0 where
    end : Fields
    field : Text → Json → Fields → Fields

-- `record[key]`
abbrev pub get : Text → Fields → Option Json
get key end = none
get key (field name value rest) = if text_eq name key then some value else get key rest

abbrev pub keys : Fields → List Text
keys end = []
keys (field name value rest) = name ∷ keys rest

abbrev pub items : List Json → Items
items [] = nil
items (v ∷ vs) = cons v (items vs)

abbrev pub list : Items → List Json
list nil = []
list (cons v vs) = v ∷ list vs

pub list-items : (vs : List Json) → list (items vs) ≡ vs
list-items [] = refl
list-items (v ∷ vs) = ap (λ r. v ∷ r) (list-items vs)

-- `value in names`
abbrev pub member : Text → List Text → Bool
member name names = any (λ n. text_eq n name) names

-- `set(names) == set(expected)`
unfoldable pub same_keys : List Text → List Text → Bool
same_keys names expected = all (λ n. member n expected) names && all (λ n. member n names) expected

-- a list of `str` as an array
abbrev pub text_array : List Text → Json
text_array titles = arr (items (map text titles))
