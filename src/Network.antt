-- ===== src/Network.antt =====
-- pkg/network/network.go: the names of bridges, as bytes (code points where they are not ASCII).
pub mod Bridges
pub mod Mac
pub mod Tests
use mathlib.Core.List.{reverse}
use dpu_simulator.Base.{
  ℕ, ◌+◌, Bool, true, false, not, ◌&&◌, ◌||◌, List, [], ◌∷◌, Option, none, some, if◌then◌else◌, ltb,
  leb, ◌==◌, map, take, any,
}
use dpu_simulator.Base.Text.{Bytes}

-- The letters, the digits, `-` and `_`.
abbrev pub is_bridge_char : ℕ → Bool
is_bridge_char c =
    (leb b'a' c && leb c b'z')
    || (leb b'A' c && leb c b'Z')
    || (leb b'0' c && leb c b'9')
    || c == b'-'
    || c == b'_'

unfoldable pub bridge_char : ℕ → ℕ
bridge_char c = if is_bridge_char c then c else b'-'

-- `strings.TrimRight(name, "-")`.
unfoldable pub trim_right_hyphens : Bytes → Bytes
trim_right_hyphens [] = []
trim_right_hyphens (c ∷ cs) = elim (trim_right_hyphens cs) [
  | [] ↦ if c == b'-' then [] else c ∷ []
  | d ∷ ds ↦ c ∷ d ∷ ds
]

-- SanitizeBridgeName.
unfoldable pub sanitize_bridge_name : Bytes → Bytes
unfolding bridge_char trim_right_hyphens
sanitize_bridge_name name = trim_right_hyphens (take 15 (map bridge_char name))

-- The length of a code point in UTF-8.
abbrev pub rune_length : ℕ → ℕ
rune_length c = if ltb c 128 then 1 else if ltb c 2048 then 2 else if ltb c 65536 then 3 else 4

abbrev pub byte_length : Bytes → ℕ
byte_length [] = 0
byte_length (c ∷ cs) = rune_length c + byte_length cs

pub data BridgeError : Type 0 where
  empty too_long invalid_character : BridgeError

-- ValidateBridgeName: the error, if there is one.
unfoldable pub validate_bridge_name : Bytes → Option BridgeError
validate_bridge_name [] = some empty
validate_bridge_name (c ∷ cs) =
    if ltb 15 (byte_length (c ∷ cs))
    then some too_long
    else if any (λ d. not (is_bridge_char d)) (c ∷ cs)
    then some invalid_character
    else none
