-- ===== src/Plugin/Args/Value.antt =====
-- The Go values that `interface{}` holds in a tool call's arguments.
use mcp_plugin.Base.Tests.{ℕ, ◌≡◌, refl, ap, Bool, Option, List, [], ◌∷◌}
use mcp_plugin.Base.Text.{Text, Unicode}
use mcp_plugin.Base.Dict.{Dict}
use mcp_plugin.Base.Int.{ℤ}

-- A float64 is its bit pattern.
mutual
  pub data Value : Type 0 where
    null : Value
    str : Text → Value
    float : ℕ → Value
    int : ℤ → Value
    bool : Bool → Value
    arr : Elems → Value
    obj : Fields → Value

  pub data Elems : Type 0 where
    nil : Elems
    cons : Value → Elems → Elems

  pub data Fields : Type 0 where
    end : Fields
    field : Text → Value → Fields → Fields

abbrev pub elems : Elems → List Value
elems nil = []
elems (cons v vs) = v ∷ elems vs

abbrev pub of_elems : List Value → Elems
of_elems [] = nil
of_elems (v ∷ vs) = cons v (of_elems vs)

abbrev pub members : Fields → Dict Value
members end = []
members (field k v fs) = (k, v) ∷ members fs

abbrev pub of_members : Dict Value → Fields
of_members [] = end
of_members ((k, v) ∷ m) = field k v (of_members m)

pub elems-of_elems : (vs : List Value) → elems (of_elems vs) ≡ vs
elems-of_elems [] = refl
elems-of_elems (v ∷ vs) = ap (λ (r : List Value). v ∷ r) (elems-of_elems vs)

-- What the code uses of Go's library on a value: `strconv.ParseFloat(s, 64)`, `json.Unmarshal` into
-- an `interface{}`, and the Unicode tables. `none` is an error.
pub record Decoders : Type 0 where
  pub parse_float : Text → Option ℕ
  pub unmarshal : Text → Option Value
  pub unicode : Unicode
