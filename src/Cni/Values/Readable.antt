-- ===== src/Cni/Values/Readable.antt =====
-- What helmValuesToMap of pkg/cni/helm_values.go makes of a list of values whose keys do not clash.
use dpu_simulator.Base.{
  ◌≡◌, ◌∙◌, ap, subst, refl, Bool, true, false, not, ◌&&◌, List, [], ◌∷◌, Option, none, some, In,
  here, there, &&-eq-true,
}
use dpu_simulator.Cni.Values.{
  scalar, Values, empty, KeyPath, split_dots, starts_empty, set_path, set_nested_helm_value,
  HelmValue, set_all, helm_values_to_map,
}
use dpu_simulator.Cni.Values.Nested.{
  found, get, related, ends_full, is_open, get-empty, get-set_path, get-set_path_ne, set_path-some,
}

abbrev pub path_of : HelmValue → KeyPath
path_of h = split_dots h.key

-- None of the paths leads to the first, or through it.
unfoldable pub apart : KeyPath → List HelmValue → Bool
apart p [] = true
apart p (h ∷ values) =
    not (related p (path_of h)) && (not (related (path_of h) p) && apart p values)

-- The keys have a first and a last part, and no two of them clash.
unfoldable pub clash_free : List HelmValue → Bool
unfolding apart
clash_free [] = true
clash_free (h ∷ values) =
    not (starts_empty (path_of h))
    && (ends_full (path_of h) && (apart (path_of h) values && clash_free values))

not-eq-true : (b : Bool) → not b ≡ true → b ≡ false
not-eq-true true h = cc
not-eq-true false h = refl

apart-In :
    (p : KeyPath) (values : List HelmValue)
    → apart p values ≡ true
    → (h : HelmValue) → In h values
    → (related p (path_of h) ≡ false) × (related (path_of h) p ≡ false)
unfolding apart
apart-In p [] a h m = elim m [ ]
apart-In p (g ∷ values) a h (here e) =
    let (x, rest) = &&-eq-true a in
    let (y, _) = &&-eq-true rest in
    subst (λ k. (related p (path_of k) ≡ false) × (related (path_of k) p ≡ false)) e
      (not-eq-true _ x, not-eq-true _ y)
apart-In p (g ∷ values) a h (there m) = apart-In p values (&&-eq-true ((&&-eq-true a).1)).1 h m

-- The values of a list, set in a map where no scalar is in the way of any.
record Set (values : List HelmValue) (m : Values) : Type 0 where
  result : Values
  is_set : set_all values m ≡ some result
  reads : (h : HelmValue) → In h values → get (path_of h) result ≡ found (scalar h.value)
  keeps : (p : KeyPath) → apart p values ≡ true → get p result ≡ get p m

set_more :
    (h : HelmValue) (values : List HelmValue) (m m1 : Values)
    → set_nested_helm_value m h.key h.value ≡ some m1
    → get (path_of h) m1 ≡ found (scalar h.value)
    → apart (path_of h) values ≡ true
    → ((p : KeyPath) → apart p (h ∷ values) ≡ true → (apart p values ≡ true) × (get p m1 ≡ get p m))
    → Set values m1
    → Set (h ∷ values) m
unfolding set_all
set_more h values m m1 e here_read a frame rest = record {
  result = rest.result;
  is_set =
      ap (λ o. elim o as (λ _. Option Values) [ none ↦ none | some m' ↦ set_all values m' ]) e
      ∙ rest.is_set;
  reads = read;
  keeps = λ p q. rest.keeps p (frame p q).0 ∙ (frame p q).1;
}
  where
    read :
        (g : HelmValue) → In g (h ∷ values) → get (path_of g) rest.result ≡ found (scalar g.value)
    read g (here same) =
        subst (λ k. get (path_of k) rest.result ≡ found (scalar k.value)) same
          (rest.keeps (path_of h) a ∙ here_read)
    read g (there i) = rest.reads g i

set_nested_helm_value-set_path :
    (m : Values) (h : HelmValue) (m1 : Values)
    → starts_empty (path_of h) ≡ false
    → set_path (path_of h) h.value m ≡ some m1
    → set_nested_helm_value m h.key h.value ≡ some m1
unfolding set_nested_helm_value
set_nested_helm_value-set_path m h m1 s e = rw (s, set_nested_helm_value) e

apart-frame :
    (h : HelmValue) (values : List HelmValue) (m m1 : Values)
    → set_path (path_of h) h.value m ≡ some m1
    → (p : KeyPath) → apart p (h ∷ values) ≡ true
    → (apart p values ≡ true) × (get p m1 ≡ get p m)
unfolding apart
apart-frame h values m m1 e p q =
    let rest = (&&-eq-true q).1 in
    (
      (&&-eq-true rest).1,
      get-set_path_ne (path_of h) p h.value m m1 (not-eq-true _ (&&-eq-true rest).0) e,
    )

set_all-Set :
    (values : List HelmValue) (m : Values)
    → clash_free values ≡ true
    → ((h : HelmValue) → In h values → is_open (get (path_of h) m) ≡ true)
    → Set values m
unfolding set_all clash_free
set_all-Set [] m c o = record {
  result = m;
  is_set = refl;
  reads = λ h i. elim i [ ];
  keeps = λ p a. refl;
}
set_all-Set (h ∷ values) m c o =
    let (starts, c1) = &&-eq-true c in
    let (ends, c2) = &&-eq-true c1 in
    let (a, c3) = &&-eq-true c2 in
    let (m1, e) = set_path-some (path_of h) h.value m ends (o h (here refl)) in
    set_more h values m m1 (set_nested_helm_value-set_path m h m1 (not-eq-true _ starts) e)
      (get-set_path (path_of h) h.value m m1 e) a (apart-frame h values m m1 e)
      (set_all-Set values m1 c3 (λ g i.
        ap is_open (
          get-set_path_ne (path_of h) (path_of g) h.value m m1 (apart-In (path_of h) values a g i).0
            e)
        ∙ o g (there i)))

-- Values whose keys do not clash are put in a map, and each is read back under its key.
pub helm_values_to_map-get :
    (values : List HelmValue)
    → clash_free values ≡ true
    → (m : Values) × (helm_values_to_map values ≡ some m)
      × ((h : HelmValue) → In h values → get (path_of h) m ≡ found (scalar h.value))
unfolding helm_values_to_map
helm_values_to_map-get values c =
    let all = set_all-Set values empty c (λ h i. get-empty (path_of h)) in
    (all.result, all.is_set, all.reads)
