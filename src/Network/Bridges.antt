-- ===== src/Network/Bridges.antt =====
-- What SanitizeBridgeName of pkg/network/network.go gives.
use dpu_simulator.Base.{
  ℕ, zero, suc, ◌≤◌, ◌≡◌, ◌≢◌, refl, true, false, not, [], ◌∷◌, none, arith, if◌then◌else◌, ◌==◌,
  map, take, any, length, All, Bool-cases, inl, inr,
}
use dpu_simulator.Base.Text.{Bytes}
use dpu_simulator.Network.{
  is_bridge_char, bridge_char, trim_right_hyphens, sanitize_bridge_name, validate_bridge_name,
  byte_length, rune_length,
}

IsBridgeChar : ℕ → Type 0
IsBridgeChar c = is_bridge_char c ≡ true

bridge_char-IsBridgeChar : (c : ℕ) → IsBridgeChar (bridge_char c)
unfolding bridge_char IsBridgeChar
bridge_char-IsBridgeChar c = elim (Bool-cases (is_bridge_char c)) [
  | inl e ↦ rw (e, e)
  | inr e ↦ rw e refl
]

map_chars : (cs : Bytes) → All IsBridgeChar (map bridge_char cs)
map_chars [] = tt
map_chars (c ∷ cs) = (bridge_char-IsBridgeChar c, map_chars cs)

take_chars : (n : ℕ) (cs : Bytes) → All IsBridgeChar cs → All IsBridgeChar (take n cs)
take_chars zero cs h = tt
take_chars (suc n) [] h = tt
take_chars (suc n) (c ∷ cs) h = (h.0, take_chars n cs h.1)

length-take_le : (n : ℕ) (cs : Bytes) → length (take n cs) ≤ n
length-take_le zero cs = omega arith
length-take_le (suc n) [] = omega arith
length-take_le (suc n) (c ∷ cs) = omega (arith, length-take_le n cs)

trim_chars : (cs : Bytes) → All IsBridgeChar cs → All IsBridgeChar (trim_right_hyphens cs)
unfolding trim_right_hyphens
trim_chars [] h = tt
trim_chars (c ∷ cs) h = go (trim_right_hyphens cs) (trim_chars cs h.1)
  where
    go :
        (rest : Bytes)
        → All IsBridgeChar rest
        → All IsBridgeChar (elim rest as (λ x. Bytes) [
          | [] ↦ if c == b'-' then [] else c ∷ []
          | d ∷ ds ↦ c ∷ d ∷ ds
        ])
    go [] k = elim (Bool-cases (c == b'-')) [ inl e ↦ rw e tt | inr e ↦ rw e (h.0, tt) ]
    go (d ∷ ds) k = (h.0, k)

length-trim_le : (cs : Bytes) → length (trim_right_hyphens cs) ≤ length cs
unfolding trim_right_hyphens
length-trim_le [] = omega arith
length-trim_le (c ∷ cs) = ground (arith, length-trim_le cs)

ascii : (c : ℕ) → IsBridgeChar c → rune_length c ≡ 1
unfolding IsBridgeChar
ascii c h = ground arith

byte_length-chars : (cs : Bytes) → All IsBridgeChar cs → byte_length cs ≡ length cs
byte_length-chars [] h = refl
byte_length-chars (c ∷ cs) h = omega (arith, ascii c h.0, byte_length-chars cs h.1)

no_bad_chars : (cs : Bytes) → All IsBridgeChar cs → any (λ d. not (is_bridge_char d)) cs ≡ false
unfolding IsBridgeChar
no_bad_chars [] h = refl
no_bad_chars (c ∷ cs) h = rw h.0 (no_bad_chars cs h.1)

valid :
    (cs : Bytes) → All IsBridgeChar cs → length cs ≤ 15 → cs ≢ [] → validate_bridge_name cs ≡ none
unfolding validate_bridge_name
valid [] h l ne = absurd (ne refl)
valid (c ∷ cs) h l ne = rw (byte_length-chars (c ∷ cs) h, no_bad_chars (c ∷ cs) h) (ground arith)

-- A name that is not empty after it has been sanitized is a valid name for a bridge.
pub validate_bridge_name-sanitize_bridge_name :
    (name : Bytes)
    → sanitize_bridge_name name ≢ []
    → validate_bridge_name (sanitize_bridge_name name) ≡ none
unfolding sanitize_bridge_name
validate_bridge_name-sanitize_bridge_name name ne =
    let cut = take 15 (map bridge_char name) in
    valid (trim_right_hyphens cut) (trim_chars cut (take_chars 15 _ (map_chars name)))
      (omega (arith, length-trim_le cut, length-take_le 15 (map bridge_char name))) ne
