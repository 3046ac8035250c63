-- ===== src/Cni/Values/Nested.antt =====
-- What is read from the nested Helm values of pkg/cni/helm_values.go after they are set.
use dpu_simulator.Base.{
  ◌≡◌, ◌∙◌, ap, subst, sym, refl, Bool, true, false, not, ◌&&◌, [], ◌∷◌, Option, none, some, String,
  str_eq, str_eq_iff, str_eq_refl, if◌then◌else◌, Option-cases, Bool-cases, inl, inr,
}
use dpu_simulator.Cni.Values.{
  Scalar, Value, scalar, branch, Values, empty, entry, KeyPath, lookup_key, put_key, child_of,
  set_path,
}

-- What a path leads to: nothing yet, a value, or a scalar in its way.
pub data Cell : Type 0 where
  vacant blocked : Cell
  found : Value → Cell

abbrev pub at_end : Option Value → Cell
at_end none = vacant
at_end (some u) = found u

unfoldable pub get : KeyPath → Values → Cell
get [] m = found (branch m)
get (k ∷ []) m = at_end (lookup_key k m)
get (k ∷ j ∷ path) m = elim (child_of (lookup_key k m)) [
  | none ↦ blocked
  | some child ↦ get (j ∷ path) child
]

-- One path leads to the other or through it.
unfoldable pub related : KeyPath → KeyPath → Bool
related [] q = true
related (k ∷ p) [] = true
related (k ∷ p) (j ∷ q) = str_eq j k && related p q

-- The last part is not empty.
unfoldable pub ends_full : KeyPath → Bool
ends_full [] = false
ends_full (k ∷ []) = not (str_eq k "")
ends_full (k ∷ j ∷ path) = ends_full (j ∷ path)

lookup_key-put_self : (k : String) (v : Value) (m : Values) → lookup_key k (put_key k v m) ≡ some v
unfolding lookup_key put_key
lookup_key-put_self k v empty = rw (str_eq_refl k) refl
lookup_key-put_self k v (entry j u m) = elim (Bool-cases (str_eq k j)) [
  | inl e ↦ rw (e, e) refl
  | inr e ↦ rw (e, e) (lookup_key-put_self k v m)
]

lookup_key-put_ne :
    (j k : String) (v : Value) (m : Values)
    → str_eq j k ≡ false
    → lookup_key j (put_key k v m) ≡ lookup_key j m
unfolding lookup_key put_key
lookup_key-put_ne j k v empty h = rw h refl
lookup_key-put_ne j k v (entry i u m) h = elim (Bool-cases (str_eq k i)) [
  | inl e ↦ rw e (
      subst
        (λ s.
          (if str_eq j s then some v else lookup_key j m)
          ≡ (if str_eq j s then some u else lookup_key j m))
        ((str_eq_iff k i).0 e) (rw h refl))
  | inr e ↦ rw e (elim (Bool-cases (str_eq j i)) [
    | inl f ↦ rw f refl
    | inr f ↦ rw f (lookup_key-put_ne j k v m h)
  ])
]

get-lookup_key :
    (k : String) (p : KeyPath) (m n : Values)
    → lookup_key k m ≡ lookup_key k n
    → get (k ∷ p) m ≡ get (k ∷ p) n
unfolding get
get-lookup_key k [] m n e = ap at_end e
get-lookup_key k (j ∷ p) m n e =
    ap (λ o. elim (child_of o) as (λ _. Cell) [ none ↦ blocked | some child ↦ get (j ∷ p) child ]) e

get-put_key :
    (k j : String) (p : KeyPath) (c m : Values)
    → get (k ∷ j ∷ p) (put_key k (branch c) m) ≡ get (j ∷ p) c
unfolding get child_of
get-put_key k j p c m =
    ap (λ o. elim (child_of o) as (λ _. Cell) [ none ↦ blocked | some child ↦ get (j ∷ p) child ])
      (lookup_key-put_self k (branch c) m)

-- A map that a path is set in, under its first part.
record Inner (k j : String) (path : KeyPath) (v : Scalar) (m m' : Values) : Type 0 where
  child : Values
  inner : Values
  from : child_of (lookup_key k m) ≡ some child
  set : set_path (j ∷ path) v child ≡ some inner
  result : put_key k (branch inner) m ≡ m'

set_path-Inner :
    (k j : String) (path : KeyPath) (v : Scalar) (m m' : Values)
    → set_path (k ∷ j ∷ path) v m ≡ some m'
    → Inner k j path v m m'
unfolding set_path
set_path-Inner k j path v m m' e = elim (Option-cases (child_of (lookup_key k m))) [
  | inl c ↦ absurd (none≢some (rw (c, set_path) at e))
  | inr (child, c) ↦ elim (Option-cases (set_path (j ∷ path) v child)) [
    | inl s ↦ absurd (none≢some (rw (c, set_path, s) at e))
    | inr (inner, s) ↦ record {
      child = child;
      inner = inner;
      from = c;
      set = s;
      result = some_inj (rw (c, set_path, s) at e);
    }
  ]
]
  where
    none≢some : ¬ (none ≡ some m')
    none≢some h = cc

    some_inj : {a : Values} → some a ≡ some m' → a ≡ m'
    some_inj h = cc

set_path-one :
    (k : String) (v : Scalar) (m m' : Values)
    → set_path (k ∷ []) v m ≡ some m'
    → put_key k (scalar v) m ≡ m'
unfolding set_path
set_path-one k v m m' e = elim (Bool-cases (str_eq k "")) [
  | inl b ↦ absurd (none≢some (rw (b, set_path) at e))
  | inr b ↦ some_inj (rw (b, set_path) at e)
]
  where
    none≢some : ¬ (none ≡ some m')
    none≢some h = cc

    some_inj : {a : Values} → some a ≡ some m' → a ≡ m'
    some_inj h = cc

-- What is set is read back.
pub get-set_path :
    (p : KeyPath) (v : Scalar) (m m' : Values)
    → set_path p v m ≡ some m'
    → get p m' ≡ found (scalar v)
unfolding set_path get
get-set_path [] v m m' e = cc
get-set_path (k ∷ []) v m m' e =
    subst (λ n. at_end (lookup_key k n) ≡ found (scalar v)) (set_path-one k v m m' e)
      (ap at_end (lookup_key-put_self k (scalar v) m))
get-set_path (k ∷ j ∷ p) v m m' e =
    let i = set_path-Inner k j p v m m' e in
    subst (λ n. get (k ∷ j ∷ p) n ≡ found (scalar v)) i.result
      (get-put_key k j p i.inner m ∙ get-set_path (j ∷ p) v i.child i.inner i.set)

get-child :
    (k i : String) (q : KeyPath) (child m : Values)
    → child_of (lookup_key k m) ≡ some child
    → get (k ∷ i ∷ q) m ≡ get (i ∷ q) child
unfolding get
get-child k i q child m e =
    ap (λ o. elim o as (λ _. Cell) [ none ↦ blocked | some c ↦ get (i ∷ q) c ]) e

-- What is not related to the path that is set is read as before.
pub get-set_path_ne :
    (p q : KeyPath) (v : Scalar) (m m' : Values)
    → related p q ≡ false
    → set_path p v m ≡ some m'
    → get q m' ≡ get q m
unfolding related
get-set_path_ne [] q v m m' r e = cc
get-set_path_ne (k ∷ p) [] v m m' r e = cc
get-set_path_ne (k ∷ []) (l ∷ q) v m m' r e = elim (Bool-cases (str_eq l k)) [
  | inl b ↦ absurd (true≢false (rw b at r))
  | inr b ↦ get-lookup_key l q m' m (
      subst (λ n. lookup_key l n ≡ lookup_key l m) (set_path-one k v m m' e)
        (lookup_key-put_ne l k (scalar v) m b))
]
  where
    true≢false : ¬ (true ≡ false)
    true≢false h = cc
get-set_path_ne (k ∷ j ∷ p) (l ∷ q) v m m' r e =
    let i = set_path-Inner k j p v m m' e in
    elim (Bool-cases (str_eq l k)) [
      | inr b ↦ get-lookup_key l q m' m (
          subst (λ n. lookup_key l n ≡ lookup_key l m) i.result
            (lookup_key-put_ne l k (branch i.inner) m b))
      | inl b ↦
          deeper q (rw b at r) i ((str_eq_iff l k).0 b)
            (λ q' r'. get-set_path_ne (j ∷ p) q' v i.child i.inner r' i.set)
    ]
  where
    deeper :
        (q : KeyPath)
        → related (j ∷ p) q ≡ false
        → (i : Inner k j p v m m') → l ≡ k
        → ((q' : KeyPath) → related (j ∷ p) q' ≡ false → get q' i.inner ≡ get q' i.child)
        → get (l ∷ q) m' ≡ get (l ∷ q) m
    deeper [] r i same rest = cc
    deeper (n ∷ q) r i same rest =
        subst (λ s. get (s ∷ n ∷ q) m' ≡ get (s ∷ n ∷ q) m) (sym same)
          (subst (λ m1. get (k ∷ n ∷ q) m1 ≡ get (k ∷ n ∷ q) m) i.result
            (get-put_key k n q i.inner m ∙ rest (n ∷ q) r ∙ sym (get-child k n q i.child m i.from)))

unfoldable pub is_open : Cell → Bool
is_open blocked = false
is_open c = true

pub get-empty : (p : KeyPath) → is_open (get p empty) ≡ true
unfolding get is_open child_of lookup_key
get-empty [] = refl
get-empty (k ∷ []) = refl
get-empty (k ∷ j ∷ p) = get-empty (j ∷ p)

-- Where no scalar is in the way, a path with a last part is set.
pub set_path-some :
    (p : KeyPath) (v : Scalar) (m : Values)
    → ends_full p ≡ true
    → is_open (get p m) ≡ true
    → (m' : Values) × (set_path p v m ≡ some m')
unfolding set_path ends_full get is_open
set_path-some [] v m h o = absurd (false≢true h)
  where
    false≢true : ¬ (false ≡ true)
    false≢true h = cc
set_path-some (k ∷ []) v m h o = elim (Bool-cases (str_eq k "")) [
  | inl b ↦ absurd (false≢true (rw b at h))
  | inr b ↦ rw (b, set_path) (put_key k (scalar v) m, refl)
]
  where
    false≢true : ¬ (false ≡ true)
    false≢true h = cc
set_path-some (k ∷ j ∷ p) v m h o = elim (Option-cases (child_of (lookup_key k m))) [
  | inl c ↦ absurd (false≢true (rw (c, get, is_open) at o))
  | inr (child, c) ↦
      let (inner, e) =
        set_path-some (j ∷ p) v child h (ap is_open (sym (get-child k j p child m c)) ∙ o) in
      rw (c, set_path, e) (put_key k (branch inner) m, refl)
]
  where
    false≢true : ¬ (false ≡ true)
    false≢true h = cc
