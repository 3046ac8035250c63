-- ===== src/Config/Defaults/Settled/Entries.antt =====
-- Entries that are accepted: paths, SSH sections, bare-metal nodes, clusters and endpoints.
use dpu_simulator.Base.{
  ◌≡◌, ◌≢◌, ◌⊎◌, ◌∙◌, ap, sym, refl, false, List, [], ◌∷◌, ◌++◌, Option, none, some, String, str_eq,
  if◌then◌else◌, map, arith, append-eq-nil, Bool-cases, Option-cases, inl, inr,
}
use dpu_simulator.Base.Trim.{trim_text, trim_text_idem}
use dpu_simulator.Config.Types.{BareMetalConfig, BareMetalBootcConfig, SshConfig}
use dpu_simulator.Config.Validate.{
  is_blank, check_bare_metal, with_type, check_bootc, check_cluster,
}
use dpu_simulator.Config.Addons.{validate_and_normalize_addons_idem}
use dpu_simulator.Config.Defaults.{
  Home, is_prefix, behind_slash, expand_tilde, expand_key_path, check_bootstrap, bootstrapped,
  bootc_of, on_field, on_path, validate_bare_metal, validate_ssh, validate_endpoint, each_set,
}

-- What `f` has accepted, `g` accepts and leaves.
abbrev pub Settles : {A E : Type 0} → (A → A × List E) → (A → A × List E) → Type 0
Settles {A} f g = (x : A) → (f x).1 ≡ [] → g (f x).0 ≡ ((f x).0, [])

pub each_set-Settles :
    {A E : Type 0} (f g : A → A × List E) → Settles f g → Settles (each_set f) (each_set g)
unfolding each_set
each_set-Settles f g h [] e = refl
each_set-Settles f g h (x ∷ xs) e =
    let (here, rest) = append-eq-nil (f x).1 (each_set f xs).1 e in
    rw (h x here, each_set-Settles f g h xs rest) refl

-- The home directory and the paths in it do not begin with a tilde: they are absolute.
pub record IsPlain (home : Home) : Type 0 where
  pub dir_plain : (dir : String) → home.dir ≡ some dir → is_prefix "~" dir ≡ false
  pub join_plain : (s : String) → is_prefix "~" (home.join s) ≡ false

some_inj : {s t : String} → some s ≡ some t → s ≡ t
some_inj e = cc

none≢some : {s : String} → ¬ (none ≡ some s)
none≢some e = cc

cons≢nil : {A : Type 0} {x : A} {xs : List A} → x ∷ xs ≢ []
cons≢nil e = cc

-- A default is given once.
pub defaulted_idem :
    (s default : String)
    → (if is_blank (if is_blank s then default else s)
        then default
        else (if is_blank s then default else s))
      ≡ (if is_blank s then default else s)
defaulted_idem s default = elim (Bool-cases (is_blank s)) [
  | inl e ↦ rw e (elim (Bool-cases (is_blank default)) [ inl b ↦ rw b refl | inr b ↦ rw b refl ])
  | inr e ↦ rw (e, e) refl
]

module _ (home : Home) (plain : IsPlain home) where
  expand_plain : (path : String) → is_prefix "~" path ≡ false → expand_tilde home path ≡ some path
  unfolding expand_tilde
  expand_plain path h = rw h refl

  -- What comes out is the path itself, or a path without a tilde.
  expanded_plain :
      (path expanded : String)
      → expand_tilde home path ≡ some expanded
      → (is_prefix "~" expanded ≡ false) ⊎ (path ≡ expanded)
  unfolding expand_tilde
  expanded_plain path expanded h = elim (Bool-cases (is_prefix "~" path)) [
    | inr e ↦ inr (some_inj (rw (e, expand_tilde) at h))
    | inl e ↦ elim (Option-cases home.dir) [
      | inl n ↦ absurd (none≢some (rw (e, n, expand_tilde) at h))
      | inr (dir, d) ↦ elim (Bool-cases (str_eq path "~")) [
        | inl t ↦
            let same : dir ≡ expanded = some_inj (rw (e, d, t, expand_tilde) at h) in
            inl (ap (is_prefix "~") (sym same) ∙ plain.dir_plain dir d)
        | inr t ↦ elim (Bool-cases (is_prefix "~/" path)) [
          | inl s ↦
              let same : home.join (behind_slash path) ≡ expanded =
                some_inj (rw (e, d, t, s, expand_tilde) at h) in
              inl (ap (is_prefix "~") (sym same) ∙ plain.join_plain (behind_slash path))
          | inr s ↦ inr (some_inj (rw (e, d, t, s, expand_tilde) at h))
        ]
      ]
    ]
  ]

  expand_tilde_idem :
      (path expanded : String)
      → expand_tilde home path ≡ some expanded
      → expand_tilde home expanded ≡ some expanded
  expand_tilde_idem path expanded h = elim (expanded_plain path expanded h) [
    | inl e ↦ expand_plain expanded e
    | inr same ↦ ap (expand_tilde home) (sym same) ∙ h
  ]

  expand_key_path-Settles : Settles (expand_key_path home) (expand_key_path home)
  unfolding expand_key_path
  expand_key_path-Settles path h = elim (Bool-cases (is_blank path)) [
    | inl e ↦ rw e (rw e refl)
    | inr e ↦ elim (Option-cases (expand_tilde home path)) [
      | inl n ↦ absurd (cons≢nil (rw (e, n, expand_key_path) at h))
      | inr (q, f) ↦
          rw (e, f)
            (elim (Bool-cases (is_blank q)) [
              | inl b ↦ rw b refl
              | inr b ↦ rw (b, expand_tilde_idem path q f) refl
            ])
    ]
  ]

  pub validate_ssh-Settles : Settles (validate_ssh home) (validate_ssh home)
  unfolding validate_ssh
  validate_ssh-Settles s h =
      let again = expand_key_path-Settles s.key_path h in
      rw (again, defaulted_idem s.user "root", defaulted_idem s.password "redhat") refl

pub validate_endpoint-Settles : Settles validate_endpoint validate_endpoint
unfolding validate_endpoint
validate_endpoint-Settles endpoint h =
    rw (trim_text_idem endpoint) (ap (λ e. (trim_text endpoint, e)) h)

check_bootc-Settles : Settles check_bootc check_bootc
unfolding check_bootc
check_bootc-Settles b h = ground arith

pub check_cluster-Settles : Settles check_cluster check_cluster
unfolding check_cluster
check_cluster-Settles cl h =
    let (normal, again) = validate_and_normalize_addons_idem cl.addons in
    rw
      (
        defaulted_idem cl.pod_cidr "10.244.0.0/16",
        defaulted_idem cl.service_cidr "10.245.0.0/16",
        again,
      )
      (ap (λ es. ((check_cluster cl).0, es ++ [])) (append-eq-nil _ _ h).0)

abbrev own_user : String → String
own_user user = if is_blank user then "root" else user

own_user-ne-empty : (user : String) → is_blank (own_user user) ≡ false
unfolding str_eq
own_user-ne-empty user = elim (Bool-cases (is_blank user)) [
  | inl e ↦ rw e refl
  | inr e ↦ rw (e, e) refl
]

-- A user that is given is not given again.
given_user :
    (s u v : String)
    → is_blank u ≡ false
    → (if is_blank (if is_blank s then u else s) then v else (if is_blank s then u else s))
      ≡ (if is_blank s then u else s)
given_user s u v h = elim (Bool-cases (is_blank s)) [
  | inl e ↦ rw (e, h) refl
  | inr e ↦ rw (e, e) refl
]

check_bootstrap-Settles :
    (home : Home) (plain : IsPlain home) (user user' : String)
    → Settles (check_bootstrap home user) (check_bootstrap home user')
unfolding check_bootstrap
check_bootstrap-Settles home plain user user' b h =
    let (path_clean, credentials) = append-eq-nil _ _ h in
    let again = expand_key_path-Settles home plain b.key_path path_clean in
    rw
      (
        again,
        credentials,
        given_user b.user (own_user user) (own_user user') (own_user-ne-empty user),
      )
      refl

bootstrapped-Settles :
    (home : Home) (plain : IsPlain home) (user user' : String)
    → Settles (bootstrapped home user) (bootstrapped home user')
unfolding bootstrapped
bootstrapped-Settles home plain user user' none h = refl
bootstrapped-Settles home plain user user' (some b) h =
    rw (check_bootstrap-Settles home plain user user' b h) refl

bootc_of-Settles : Settles bootc_of bootc_of
unfolding bootc_of
bootc_of-Settles none h = refl
bootc_of-Settles (some b) h = rw (check_bootc-Settles b h) refl

map-eq-nil : {A B : Type 0} (f : A → B) (xs : List A) → map f xs ≡ [] → xs ≡ []
map-eq-nil f [] h = refl
map-eq-nil f (x ∷ xs) h = cc

-- The checks of the fields do not read what has been filled in.
check_bare_metal_again :
    (node : BareMetalConfig) (bootstrap : Option SshConfig) (bootc : Option BareMetalBootcConfig)
    → check_bare_metal (record (with_type node) { bootstrap_ssh = bootstrap; bootc = bootc })
      ≡ check_bare_metal node
unfolding check_bare_metal
check_bare_metal_again node bootstrap bootc = rw (defaulted_idem node.node_type "host") refl

pub validate_bare_metal-Settles :
    (home : Home) (plain : IsPlain home) (user user' : String)
    → Settles (validate_bare_metal home user) (validate_bare_metal home user')
unfolding validate_bare_metal
validate_bare_metal-Settles home plain user user' node h =
    let (fields, others) = append-eq-nil _ _ h in
    let (paths, bootc_fields) = append-eq-nil _ _ others in
    let bootstrap =
      bootstrapped-Settles home plain user user' node.bootstrap_ssh (map-eq-nil on_path _ paths) in
    let bootc = bootc_of-Settles node.bootc (map-eq-nil on_field _ bootc_fields) in
    rw (bootstrap, bootc, defaulted_idem node.node_type "host")
      (ap (λ es. ((validate_bare_metal home user node).0, map on_field es ++ []))
        (check_bare_metal_again node _ _ ∙ map-eq-nil on_field _ fields))
