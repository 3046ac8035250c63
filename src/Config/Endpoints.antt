-- ===== src/Config/Endpoints.antt =====
-- validateRegistryEndpoint of pkg/config/config.go, with net.SplitHostPort, on the bytes of an endpoint.
use dpu_simulator.Base.{
  ℕ, Bool, false, not, ◌&&◌, ◌||◌, [], ◌∷◌, Option, none, some, if◌then◌else◌, ◌==◌, any,
}
use dpu_simulator.Base.Int.{ℤ, pos, ltb_ℤ}
use dpu_simulator.Base.Text.{Bytes, codes, atoi, has_prefix}
use dpu_simulator.Config.Mode.{is_empty}

abbrev has_byte : ℕ → Bytes → Bool
has_byte b cs = any (λ c. c == b) cs

-- strings.Contains.
unfoldable pub contains_bytes : Bytes → Bytes → Bool
contains_bytes [] sub = has_prefix [] sub
contains_bytes (c ∷ cs) sub = has_prefix (c ∷ cs) sub || contains_bytes cs sub

-- The bytes before the last `b` and those behind it.
unfoldable pub split_last : ℕ → Bytes → Option (Bytes × Bytes)
split_last b [] = none
split_last b (c ∷ cs) = elim (split_last b cs) [
  | some (before, after) ↦ some (c ∷ before, after)
  | none ↦ if c == b then some ([], cs) else none
]

-- The bytes before the first `b` and those behind it.
unfoldable pub split_first : ℕ → Bytes → Option (Bytes × Bytes)
split_first b [] = none
split_first b (c ∷ cs) =
    if c == b
    then some ([], cs)
    else (elim (split_first b cs) [ some (before, after) ↦ some (c ∷ before, after) | none ↦ none ])

-- A host in brackets: the last colon comes right behind the closing bracket.
unfoldable pub split_bracketed : Bytes → Option (Bytes × Bytes)
unfolding split_first
split_bracketed cs = elim (split_first b']' cs) [
  | none ↦ none
  | some (host, []) ↦ none
  | some (host, c ∷ port) ↦
      if not (c == b':')
        || has_byte b':' port
        || has_byte b'[' host
        || has_byte b'[' port
        || has_byte b']' port
      then none
      else some (host, port)
]

unfoldable pub split_plain : Bytes → Option (Bytes × Bytes)
unfolding split_last
split_plain cs = elim (split_last b':' cs) [
  | none ↦ none
  | some (host, port) ↦
      if has_byte b':' host || has_byte b'[' cs || has_byte b']' cs then none else some (host, port)
]

-- net.SplitHostPort.
unfoldable pub split_host_port : Bytes → Option (Bytes × Bytes)
unfolding split_bracketed split_plain
split_host_port [] = none
split_host_port (c ∷ cs) = if c == b'[' then split_bracketed cs else split_plain (c ∷ cs)

pub data EndpointError : Type 0 where
  empty_value with_scheme no_endpoint no_host no_port : EndpointError

abbrev port_number : Option ℤ → Bool
port_number none = false
port_number (some n) = ltb_ℤ (pos 0) n && ltb_ℤ n (pos 65536)

unfoldable pub validate_registry_endpoint : Bytes → Option EndpointError
unfolding contains_bytes split_host_port
validate_registry_endpoint endpoint =
    if contains_bytes endpoint (codes "://")
    then some with_scheme
    else (elim (split_host_port endpoint) [
      | none ↦ some no_endpoint
      | some (host, port) ↦
          if is_empty host
          then some no_host
          else if not (port_number (atoi port))
          then some no_port
          else none
    ])
