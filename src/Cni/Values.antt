-- ===== src/Cni/Values.antt =====
-- The nested Helm values of pkg/cni/helm_values.go: setNestedHelmValue and helmValuesToMap. A Go map is an
-- association list, where a key that is there is overwritten.
pub mod Nested
pub mod Readable
use Prim.Native.String.{◌++◌ as concat}
use dpu_simulator.Base.{
  ℕ, Bool, true, false, not, ◌&&◌, List, [], ◌∷◌, Option, none, some, String, str_eq, if◌then◌else◌,
}
use dpu_simulator.Base.Text.{Bytes}
use dpu_simulator.Base.Int.{ℤ}

pub data Scalar : Type 0 where
  text : Bytes → Scalar
  flag : Bool → Scalar
  number : ℤ → Scalar

-- map[string]any, whose values are scalars or maps.
mutual
  pub data Value : Type 0 where
    scalar : Scalar → Value
    branch : Values → Value

  pub data Values : Type 0 where
    empty : Values
    entry : String → Value → Values → Values

abbrev pub KeyPath : Type 0
KeyPath = List String

unfoldable pub lookup_key : String → Values → Option Value
lookup_key k empty = none
lookup_key k (entry j u m) = if str_eq k j then some u else lookup_key k m

unfoldable pub put_key : String → Value → Values → Values
put_key k v empty = entry k v empty
put_key k v (entry j u m) = if str_eq k j then entry j v m else entry j u (put_key k v m)

-- A character that is not a dot joins the part behind it.
unfoldable pub push : String → KeyPath → KeyPath
push c [] = c ∷ []
push c (part ∷ parts) = concat c part ∷ parts

-- strings.Split(key, ".").
unfoldable pub split_dots : String → KeyPath
unfolding push
split_dots String.[] = "" ∷ []
split_dots (String.◌∷◌ c s) =
    let one = String.◌∷◌ c String.[] in
    let rest = split_dots s in if str_eq one "." then "" ∷ rest else push one rest

-- The map that the loop goes on with: the one under the part, or a new one, unless a scalar is there.
unfoldable pub child_of : Option Value → Option Values
child_of none = some empty
child_of (some (scalar s)) = none
child_of (some (branch child)) = some child

-- The loop and the assignment of setNestedHelmValue.
unfoldable pub set_path : KeyPath → Scalar → Values → Option Values
unfolding child_of lookup_key put_key
set_path [] v m = none
set_path (k ∷ []) v m = if str_eq k "" then none else some (put_key k (scalar v) m)
set_path (k ∷ j ∷ path) v m = elim (child_of (lookup_key k m)) [
  | none ↦ none
  | some child ↦ elim (set_path (j ∷ path) v child) [
    | none ↦ none
    | some c ↦ some (put_key k (branch c) m)
  ]
]

unfoldable pub starts_empty : KeyPath → Bool
starts_empty [] = true
starts_empty (k ∷ path) = str_eq k ""

unfoldable pub set_nested_helm_value : Values → String → Scalar → Option Values
unfolding split_dots starts_empty set_path
set_nested_helm_value m key v =
    let parts = split_dots key in if starts_empty parts then none else set_path parts v m

pub record HelmValue : Type 0 where
  pub key : String
  pub value : Scalar

unfoldable pub set_all : List HelmValue → Values → Option Values
unfolding set_nested_helm_value
set_all [] m = some m
set_all (h ∷ values) m = elim (set_nested_helm_value m h.key h.value) [
  | none ↦ none
  | some m' ↦ set_all values m'
]

unfoldable pub helm_values_to_map : List HelmValue → Option Values
unfolding set_all
helm_values_to_map values = set_all values empty
