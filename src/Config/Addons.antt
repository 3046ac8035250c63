-- ===== src/Config/Addons.antt =====
-- validateAndNormalizeAddons of pkg/config/config.go: the addons of a cluster, each at most once.
use dpu_simulator.Base.{
  ℕ, suc, ◌+◌, ◌≡◌, refl, sym, subst, Bool, true, false, not, ◌||◌, List, [], ◌∷◌, arith, String,
  str_eq, str_eq_iff, if◌then◌else◌, Bool-cases, inl, inr, any, length,
}

abbrev pub addon_multus : String
addon_multus = "multus"

abbrev pub addon_cert_manager : String
addon_cert_manager = "cert-manager"

abbrev pub addon_whereabouts : String
addon_whereabouts = "whereabouts"

abbrev pub is_supported : String → Bool
is_supported addon =
    str_eq addon addon_multus || str_eq addon addon_cert_manager || str_eq addon addon_whereabouts

abbrev pub has_seen : List String → String → Bool
has_seen seen addon = any (λ s. str_eq s addon) seen

-- An error names the index of the addon and the addon.
pub record Addons : Type 0 where
  pub normalized : List String
  pub duplicates : List String
  pub errors : List (ℕ × String)

-- The loop, from index `idx` on, with the addons kept so far.
unfoldable pub normalize_from : ℕ → List String → List String → Addons
normalize_from idx seen [] = record { normalized = []; duplicates = []; errors = [] }
normalize_from idx seen (addon ∷ addons) =
    let skipped = normalize_from (suc idx) seen addons in
    let kept = normalize_from (suc idx) (addon ∷ seen) addons in
    if not (is_supported addon)
    then record skipped { errors = (idx, addon) ∷ skipped.errors }
    else if has_seen seen addon
    then record skipped { duplicates = addon ∷ skipped.duplicates }
    else record kept { normalized = addon ∷ kept.normalized }

unfoldable pub validate_and_normalize_addons : List String → Addons
unfolding normalize_from
validate_and_normalize_addons addons = normalize_from 0 [] addons

-- A list of supported addons with none twice and none that has been seen.
abbrev pub Normal : List String → List String → Type 0
Normal seen [] = Unit
Normal seen (addon ∷ addons) =
    (is_supported addon ≡ true) × (has_seen seen addon ≡ false) × Normal (addon ∷ seen) addons

normalize_from-Normal :
    (idx : ℕ) (seen addons : List String) → Normal seen (normalize_from idx seen addons).normalized
unfolding normalize_from
normalize_from-Normal idx seen [] = tt
normalize_from-Normal idx seen (addon ∷ addons) = ground (
  arith,
  normalize_from-Normal (suc idx) seen addons,
  normalize_from-Normal (suc idx) (addon ∷ seen) addons,
)

normalize_from_idem :
    (idx : ℕ) (seen addons : List String)
    → Normal seen addons
    → normalize_from idx seen addons ≡ record { normalized = addons; duplicates = []; errors = [] }
unfolding normalize_from
normalize_from_idem idx seen [] h = refl
normalize_from_idem idx seen (addon ∷ addons) h =
    rw (h.0, h.1, normalize_from_idem (suc idx) (addon ∷ seen) addons h.2)

-- What comes out is a list of supported addons with none twice, and normalizing it again changes
-- nothing and reports nothing.
pub validate_and_normalize_addons_idem :
    (addons : List String)
    → let kept = (validate_and_normalize_addons addons).normalized in
      Normal [] kept
      × (validate_and_normalize_addons kept
          ≡ record { normalized = kept; duplicates = []; errors = [] })
unfolding validate_and_normalize_addons
validate_and_normalize_addons_idem addons =
    let normal = normalize_from-Normal 0 [] addons in (normal, normalize_from_idem 0 [] _ normal)

-- Each addon of the list goes to exactly one of the three results.
normalize_from-length :
    (idx : ℕ) (seen addons : List String)
    → length (normalize_from idx seen addons).normalized
        + length (normalize_from idx seen addons).duplicates
        + length (normalize_from idx seen addons).errors
      ≡ length addons
unfolding normalize_from
normalize_from-length idx seen [] = refl
normalize_from-length idx seen (addon ∷ addons) = ground (
  arith,
  normalize_from-length (suc idx) seen addons,
  normalize_from-length (suc idx) (addon ∷ seen) addons,
)

normalize_from-has :
    (idx : ℕ) (seen addons : List String) (a : String)
    → is_supported a ≡ true
    → has_seen seen a ≡ false
    → has_seen (normalize_from idx seen addons).normalized a ≡ has_seen addons a
unfolding normalize_from
normalize_from-has idx seen [] a s f = refl
normalize_from-has idx seen (addon ∷ addons) a s f = elim (Bool-cases (str_eq addon a)) [
  | inl e ↦
      let same = (str_eq_iff addon a).0 e in
      let s' : is_supported addon ≡ true = subst (λ x. is_supported x ≡ true) (sym same) s in
      let f' : has_seen seen addon ≡ false = subst (λ x. has_seen seen x ≡ false) (sym same) f in
      rw (s', f', e)
  | inr e ↦
      let f' : has_seen (addon ∷ seen) a ≡ false = rw (e, f) in
      ground (
        arith,
        normalize_from-has (suc idx) seen addons a s f,
        normalize_from-has (suc idx) (addon ∷ seen) addons a s f',
        e,
      )
]

-- Every addon is kept, is a duplicate or is an error.
pub validate_and_normalize_addons-length :
    (addons : List String)
    → length (validate_and_normalize_addons addons).normalized
        + length (validate_and_normalize_addons addons).duplicates
        + length (validate_and_normalize_addons addons).errors
      ≡ length addons
unfolding validate_and_normalize_addons
validate_and_normalize_addons-length addons = normalize_from-length 0 [] addons

-- A supported addon is kept exactly where the list has it.
pub validate_and_normalize_addons_complete :
    (addons : List String) (a : String)
    → is_supported a ≡ true
    → has_seen (validate_and_normalize_addons addons).normalized a ≡ has_seen addons a
unfolding validate_and_normalize_addons
validate_and_normalize_addons_complete addons a s = normalize_from-has 0 [] addons a s refl
