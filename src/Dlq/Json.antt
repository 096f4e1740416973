-- ===== src/Dlq/Json.antt =====
-- Values as `JSON.parse` gives them. The fields of an object have different names; setting a field
-- keeps its place, as in the language.
use kafka_nest_playground.Prelude.{
  ◌^◌, ◌≡◌, refl, String, Bool, not, List, [], ◌∷◌, Option, none, some, eqb, if◌then◌else◌, ◌==◌,
  eq_iff, arith,
}
use Prim.Native.Nat.{◌/◌, ◌%◌}
use kafka_nest_playground.Contracts.Events.{Number}

mutual
  pub data Json : Type 0 where
    null : Json
    bool : Bool → Json
    number : Number → Json
    text : String → Json
    array : Elements → Json
    object : Fields → Json

  pub data Elements : Type 0 where
    nil : Elements
    cons : Json → Elements → Elements

  pub data Fields : Type 0 where
    end : Fields
    field : String → Json → Fields → Fields

-- `value.name`; `undefined` is `none`.
unfoldable pub get : String → Fields → Option Json
get name end = none
get name (field k v fs) = if k == name then some v else get name fs

-- `{ ...value, [name]: v }`.
unfoldable pub set : String → Json → Fields → Fields
set name v end = field name v end
set name v (field k w fs) = if k == name then field k v fs else field k w (set name v fs)

-- The object without a field.
unfoldable pub remove : String → Fields → Fields
remove name end = end
remove name (field k v fs) = if k == name then fs else field k v (remove name fs)

-- `{ ...value, ...changes }`.
unfoldable pub merge : Fields → Fields → Fields
merge base end = base
merge base (field k v fs) = merge (set k v base) fs

-- `Object.keys(value)`.
unfoldable pub keys : Fields → List String
keys end = []
keys (field k v fs) = k ∷ keys fs

-- `Number.isFinite`: the exponent of an infinity or a NaN is all ones.
abbrev pub is_finite : Number → Bool
is_finite n = not (eqb ((n.bits / 2 ^ 52) % 2048) 2047)

pub get-set :
    (name other : String) (v : Json) (fs : Fields)
    → get name (set other v fs) ≡ (if other == name then some v else get name fs)
unfolding get set
get-set name other v end = refl
get-set name other v (field k w fs) =
    ground (arith, eq_iff k other, eq_iff other name, eq_iff k name, get-set name other v fs)
