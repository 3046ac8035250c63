-- ===== src/DevicePlugin/Names.antt =====
-- lib/dpusim/constants.go and hostDataIfIndex of pkg/deviceplugin/device_plugin.go: the names
-- `eth0-<index>` of the host-to-DPU data interfaces, printed and parsed.
use Prim.Native.String.{◌++◌ as concat}
use text.Mathlib.Text.{starts_with}
use text.Mathlib.TextPositions.{starts_with-append}
use text.Mathlib.TextLemmas.{append_cancel_left}
use mathlib.Core.List.{reverse, reverse-append, reverse-reverse, reverse-cons}
use dpu_simulator.Base.{
  ℕ, ◌<◌, ◌≡◌, refl, ◌∙◌, ap, sym, Bool, true, false, not, [], ◌∷◌, ◌++◌, Option, none, some, arith,
  String, ◌==◌, if◌then◌else◌, All, ◌≢◌, str_eq, str_eq_iff, Bool-cases, inl, inr, All-append, ◌^◌,
}
use dpu_simulator.Base.Int.{ℤ, pos, leb_ℤ}
use dpu_simulator.Base.Text.{
  Bytes, codes, codes-concat, is_digit, IsDigit, itoa, itoa-IsDigit, itoa-ne-nil, atoi, atoi-itoa,
  itoa_inj, itoa_int,
}

abbrev pub host_gateway_interface_index : ℕ
host_gateway_interface_index = 0

abbrev pub host_gateway_interface : String
host_gateway_interface = "eth0-0"

-- HostDataIfFmt without its `%d`.
abbrev pub host_data_if_prefix : String
host_data_if_prefix = "eth0-"

unfoldable pub host_data_if : ℤ → String
unfolding itoa_int
host_data_if index = concat host_data_if_prefix (itoa_int index)

-- The longest run of digits at the front, and what follows it.
unfoldable pub span_digits : Bytes → Bytes × Bytes
span_digits [] = ([], [])
span_digits (c ∷ cs) =
    let (run, rest) = span_digits cs in if is_digit c then (c ∷ run, rest) else ([], c ∷ cs)

-- The two groups, from the digits before the dash (reversed) and the digits behind it.
groups : Bytes → Bytes → Option (Bytes × Bytes)
groups [] func = none
groups (p ∷ ps) func = some (reverse (p ∷ ps), func)

-- What follows the last digits, reversed, must be a dash and digits.
before_dash : Bytes → Bytes → Option (Bytes × Bytes)
unfolding groups span_digits
before_dash func [] = none
before_dash func (c ∷ before) = if c == b'-' then groups (span_digits before).0 func else none

last_digits : Bytes × Bytes → Option (Bytes × Bytes)
unfolding before_dash
last_digits ([], rest) = none
last_digits (d ∷ ds, rest) = before_dash (reverse (d ∷ ds)) rest

-- The groups of the match of `(\d+)-(\d+)$`: the longest runs of digits on both sides of the last
-- dash, found from the end of the name.
unfoldable pub find_submatch : Bytes → Option (Bytes × Bytes)
unfolding last_digits span_digits
find_submatch name = last_digits (span_digits (reverse name))

is_zero : Bytes → Bool
is_zero [] = false
is_zero (c ∷ []) = c == b'0'
is_zero (c ∷ d ∷ cs) = false

-- `idx, err := strconv.Atoi(m[2])`, and the check of its result.
index_of_digits : Bytes → Option ℤ
index_of_digits func = elim (atoi func) [
  | none ↦ none
  | some idx ↦ if leb_ℤ idx (pos host_gateway_interface_index) then none else some idx
]

index_of_submatch : Option (Bytes × Bytes) → Option ℤ
unfolding is_zero index_of_digits
index_of_submatch none = none
index_of_submatch (some (pf, func)) = if not (is_zero pf) then none else index_of_digits func

unfoldable pub host_data_if_index : String → Option ℤ
unfolding index_of_submatch find_submatch str_eq
host_data_if_index name =
    if str_eq name host_gateway_interface
    then none
    else if not (starts_with name host_data_if_prefix)
    then none
    else index_of_submatch (find_submatch (codes name))

module _ where
  -- A run of digits ends at a character that is none.
  span_digits-append :
      (cs : Bytes) (c : ℕ) (rest : Bytes)
      → All IsDigit cs
      → is_digit c ≡ false
      → span_digits (cs ++ c ∷ rest) ≡ (cs, c ∷ rest)
  unfolding span_digits
  span_digits-append [] c rest h e = rw e
  span_digits-append (d ∷ ds) c rest h e = rw (span_digits-append ds c rest h.1 e) (rw h.0)

  All-reverse : (cs : Bytes) → All IsDigit cs → All IsDigit (reverse cs)
  All-reverse [] h = tt
  All-reverse (c ∷ cs) h =
      rw reverse-cons (All-append IsDigit (reverse cs) (c ∷ []) (All-reverse cs h.1) (h.0, tt))

  reverse-ne-nil : (cs : Bytes) → cs ≢ [] → reverse cs ≢ []
  reverse-ne-nil cs ne e = ne (sym (reverse-reverse cs) ∙ ap reverse e)

  last_digits-dash :
      (ds : Bytes) (before : Bytes)
      → ds ≢ []
      → last_digits (ds, b'-' ∷ before) ≡ groups (span_digits before).0 (reverse ds)
  unfolding last_digits
  last_digits-dash [] before ne = absurd (ne refl)
  last_digits-dash (d ∷ ds) before ne = refl

  -- Digits behind `eth0-` are found, with the function number `0` before the dash.
  find_submatch-digits :
      (cs : Bytes)
      → All IsDigit cs
      → cs ≢ []
      → find_submatch (codes host_data_if_prefix ++ cs) ≡ some (b'0' ∷ [], cs)
  unfolding find_submatch last_digits
  find_submatch-digits cs h ne =
      ap (λ r. last_digits (span_digits r)) (reverse-append (codes host_data_if_prefix) cs)
      ∙ ap last_digits (span_digits-append (reverse cs) b'-' (codes "0hte") (All-reverse cs h) refl)
      ∙ last_digits-dash (reverse cs) (codes "0hte") (reverse-ne-nil cs ne)
      ∙ ap (λ func. some (b'0' ∷ [], func)) (reverse-reverse cs)

  -- The name of another index than 0 is not that of the gateway interface.
  host_data_if-ne-gateway :
      (n : ℕ) → 0 < n → str_eq (host_data_if (pos n)) host_gateway_interface ≡ false
  unfolding host_data_if itoa
  host_data_if-ne-gateway n h =
      elim (Bool-cases (str_eq (host_data_if (pos n)) host_gateway_interface)) [
        | inr ne ↦ ne
        | inl eq ↦
            let same =
              append_cancel_left host_data_if_prefix (itoa n) (itoa 0)
                ((str_eq_iff (host_data_if (pos n)) host_gateway_interface).0 eq) in
            absurd (omega (arith, itoa_inj n 0 same))
      ]

  host_data_if-prefix : (n : ℕ) → starts_with (host_data_if (pos n)) host_data_if_prefix ≡ true
  unfolding host_data_if
  host_data_if-prefix n = starts_with-append host_data_if_prefix (itoa n)

  find_submatch-host_data_if :
      (n : ℕ) → find_submatch (codes (host_data_if (pos n))) ≡ some (b'0' ∷ [], codes (itoa n))
  unfolding host_data_if
  find_submatch-host_data_if n =
      ap find_submatch (codes-concat host_data_if_prefix (itoa n))
      ∙ find_submatch-digits (codes (itoa n)) (itoa-IsDigit n) (itoa-ne-nil n)

  index_of_digits-itoa :
      (n : ℕ) → 0 < n → n < 2 ^ 63 → index_of_digits (codes (itoa n)) ≡ some (pos n)
  unfolding index_of_digits
  index_of_digits-itoa n h lt = rw (atoi-itoa n lt, index_of_digits) (ground arith)

-- Every index from 1 that fits an `int` is read back from the interface name that is made of it.
pub host_data_if_index-host_data_if :
    (n : ℕ) → 0 < n → n < 2 ^ 63 → host_data_if_index (host_data_if (pos n)) ≡ some (pos n)
unfolding host_data_if_index
host_data_if_index-host_data_if n h lt =
    rw (host_data_if-ne-gateway n h, host_data_if-prefix n, find_submatch-host_data_if n)
      (index_of_digits-itoa n h lt)

-- The gateway interface has no index.
pub host_data_if_index-gateway : host_data_if_index (host_data_if (pos 0)) ≡ none
unfolding host_data_if_index host_data_if itoa
host_data_if_index-gateway = refl
