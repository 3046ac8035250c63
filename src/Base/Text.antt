-- ===== src/Base/Text.antt =====
-- Text as the list of its bytes, where the program walks it; decimal digits and `strconv.Atoi`.
use Prim.Native.Char.{code}
use Prim.Native.String.{◌++◌ as concat}
use Prim.Native.String.append
use mathlib.Core.List.{reverse}
use dpu_simulator.Base.{
  ℕ, zero, suc, ◌+◌, ◌-◌, ◌*◌, ◌/◌, ◌%◌, ◌^◌, ◌<◌, ◌≡◌, refl, sym, ap, ◌∙◌, Bool, true, false, ◌&&◌,
  ◌||◌, List, [], ◌∷◌, ◌++◌, Option, none, some, arith, String, ltb, leb, ◌==◌, if◌then◌else◌, All,
  ◌≢◌, Bool-cases, inl, inr,
}
use dpu_simulator.Base.Int.{ℤ, pos, negsuc}

abbrev pub Bytes : Type 0
Bytes = List ℕ

-- The code points of a text; these are its bytes where it is ASCII.
abbrev pub codes : String → Bytes
codes String.[] = []
codes (String.◌∷◌ c s) = code c ∷ codes s

pub codes-concat : (s t : String) → codes (concat s t) ≡ codes s ++ codes t
codes-concat String.[] t = ap codes (append.nil t)
codes-concat (String.◌∷◌ c s) t =
    ap codes (append.cons c s t) ∙ ap (◌∷◌ (code c)) (codes-concat s t)

abbrev pub is_digit : ℕ → Bool
is_digit c = leb b'0' c && leb c b'9'

abbrev pub IsDigit : ℕ → Type 0
IsDigit c = is_digit c ≡ true

-- The digit characters as texts.
unfoldable pub digit : ℕ → String
digit d =
    if d == 0
    then "0"
    else if d == 1
    then "1"
    else if d == 2
    then "2"
    else if d == 3
    then "3"
    else if d == 4
    then "4"
    else if d == 5
    then "5"
    else if d == 6
    then "6"
    else if d == 7
    then "7"
    else if d == 8
    then "8"
    else "9"

codes-digit : (d : ℕ) → d < 10 → codes (digit d) ≡ (b'0' + d) ∷ []
unfolding digit
codes-digit zero h = refl
codes-digit (suc zero) h = refl
codes-digit (suc (suc zero)) h = refl
codes-digit (suc (suc (suc zero))) h = refl
codes-digit (suc (suc (suc (suc zero)))) h = refl
codes-digit (suc (suc (suc (suc (suc zero))))) h = refl
codes-digit (suc (suc (suc (suc (suc (suc zero)))))) h = refl
codes-digit (suc (suc (suc (suc (suc (suc (suc zero))))))) h = refl
codes-digit (suc (suc (suc (suc (suc (suc (suc (suc zero)))))))) h = refl
codes-digit (suc (suc (suc (suc (suc (suc (suc (suc (suc zero))))))))) h = refl
codes-digit (suc (suc (suc (suc (suc (suc (suc (suc (suc (suc d)))))))))) h = absurd (omega arith)

-- The digits of a number in front of `out`; a number below the fuel is printed whole.
unfoldable pub digits : ℕ → ℕ → String → String
digits zero n out = out
digits (suc f) n out =
    let rest = digits f (n / 10) (concat (digit (n % 10)) out) in if n == 0 then out else rest

-- `%d` of a number.
unfoldable pub itoa : ℕ → String
itoa n = if n == 0 then "0" else digits (suc n) n ""

-- The number that a text of digits stands for, after `n`.
abbrev pub value : Bytes → ℕ → ℕ
value [] n = n
value (c ∷ cs) n = value cs (n * 10 + (c - b'0'))

codes-digit-concat :
    (n : ℕ) (out : String) → codes (concat (digit (n % 10)) out) ≡ (b'0' + n % 10) ∷ codes out
codes-digit-concat n out =
    codes-concat (digit (n % 10)) out
    ∙ ap (λ xs. xs ++ codes out) (codes-digit (n % 10) (omega arith))

pub cons-ne-nil : {c : ℕ} {cs : Bytes} → ¬ (c ∷ cs ≡ [])
cons-ne-nil e = cc

value-digits :
    (f n : ℕ) (out : String) → n < f → value (codes (digits f n out)) 0 ≡ value (codes out) n
unfolding digits
value-digits zero n out h = absurd (omega arith)
value-digits (suc f) n out h = elim (Bool-cases (n == 0)) [
  | inl done ↦ let z : n ≡ 0 = ground arith in rw done (rw z)
  | inr more ↦ rw more (
      value-digits f (n / 10) (concat (digit (n % 10)) out) (ground arith)
      ∙ ap (λ cs. value cs (n / 10)) (codes-digit-concat n out)
      ∙ ap (value (codes out)) (omega arith))
]

digits-IsDigit :
    (f n : ℕ) (out : String) → All IsDigit (codes out) → All IsDigit (codes (digits f n out))
unfolding digits
digits-IsDigit zero n out h = h
digits-IsDigit (suc f) n out h = elim (Bool-cases (n == 0)) [
  | inl done ↦ rw done h
  | inr more ↦ rw more (
      digits-IsDigit f (n / 10) (concat (digit (n % 10)) out)
        (rw (codes-digit-concat n out) (ground arith, h)))
]

-- A property of the text of zero and of the digits of every other number.
itoa_cases {κ} :
    (P : ℕ → String → Type κ) (n : ℕ)
    → P 0 "0"
    → ((n == 0) ≡ false → P n (digits (suc n) n ""))
    → P n (itoa n)
unfolding itoa
itoa_cases P n z s = elim (Bool-cases (n == 0)) [
  | inl e ↦ let n0 : n ≡ 0 = ground arith in rw e (rw n0 z)
  | inr e ↦ rw e (s e)
]

-- Reading back what was printed.
pub value-itoa : (n : ℕ) → value (codes (itoa n)) 0 ≡ n
value-itoa n =
    itoa_cases (λ k s. value (codes s) 0 ≡ k) n refl (λ _. value-digits (suc n) n "" (omega arith))

pub itoa-IsDigit : (n : ℕ) → All IsDigit (codes (itoa n))
itoa-IsDigit n =
    itoa_cases (λ _ s. All IsDigit (codes s)) n (refl, tt) (λ _. digits-IsDigit (suc n) n "" tt)

pub itoa-ne-nil : (n : ℕ) → codes (itoa n) ≢ []
unfolding itoa
itoa-ne-nil n e =
    let n0 : n ≡ 0 = sym (value-itoa n) ∙ ap (λ cs. value cs 0) e in
    cons-ne-nil {c = b'0'} {cs = []} (rw n0 at e)

-- Different numbers are printed differently.
pub codes-itoa_inj : (m n : ℕ) → codes (itoa m) ≡ codes (itoa n) → m ≡ n
codes-itoa_inj m n e = sym (value-itoa m) ∙ ap (λ cs. value cs 0) e ∙ value-itoa n

pub itoa_inj : (m n : ℕ) → itoa m ≡ itoa n → m ≡ n
itoa_inj m n e = sym (value-itoa m) ∙ ap (λ s. value (codes s) 0) e ∙ value-itoa n

unfoldable pub all_digits : Bytes → Bool
all_digits [] = true
all_digits (c ∷ cs) = is_digit c && all_digits cs

all_digits_of_All : (cs : Bytes) → All IsDigit cs → all_digits cs ≡ true
unfolding all_digits
all_digits_of_All [] h = refl
all_digits_of_All (c ∷ cs) h = ground (arith, all_digits_of_All cs)

-- The digits behind the sign: none at all, another character or a value out of range is an error.
magnitude : Bytes → ℕ → Option ℕ
magnitude [] limit = none
magnitude (c ∷ cs) limit =
    if all_digits (c ∷ cs) && ltb (value (c ∷ cs) 0) limit then some (value (c ∷ cs) 0) else none

abbrev negate : ℕ → ℤ
negate zero = pos 0
negate (suc n) = negsuc n

map_some : (ℕ → ℤ) → Option ℕ → Option ℤ
map_some f none = none
map_some f (some n) = some (f n)

-- `strconv.Atoi` for a 64-bit `int`: an optional sign, then digits; `none` is the error.
unfoldable pub atoi : Bytes → Option ℤ
unfolding magnitude all_digits map_some
atoi [] = none
atoi (c ∷ cs) =
    if c == b'-'
    then map_some negate (magnitude cs (2 ^ 63 + 1))
    else if c == b'+'
    then map_some pos (magnitude cs (2 ^ 63))
    else map_some pos (magnitude (c ∷ cs) (2 ^ 63))

pub atoi-digits :
    (cs : Bytes)
    → All IsDigit cs
    → cs ≢ []
    → value cs 0 < 2 ^ 63
    → atoi cs ≡ some (pos (value cs 0))
unfolding atoi
atoi-digits [] h ne lt = absurd (ne refl)
atoi-digits (c ∷ cs) h ne lt = ground (arith, all_digits_of_All (c ∷ cs) h)

-- `Atoi` reads back what `%d` printed.
pub atoi-itoa : (n : ℕ) → n < 2 ^ 63 → atoi (codes (itoa n)) ≡ some (pos n)
atoi-itoa n h =
    atoi-digits (codes (itoa n)) (itoa-IsDigit n) (itoa-ne-nil n) (rw (value-itoa n) h)
    ∙ ap (λ k. some (pos k)) (value-itoa n)

-- `%d` of an `int`.
unfoldable pub itoa_int : ℤ → String
itoa_int (pos n) = itoa n
itoa_int (negsuc n) = concat "-" (itoa (suc n))

-- `unicode.IsSpace`.
abbrev pub is_space : ℕ → Bool
is_space c =
    (leb 9 c && leb c 13)
    || c == 32
    || c == 0x85
    || c == 0xa0
    || c == 0x1680
    || (leb 0x2000 c && leb c 0x200a)
    || c == 0x2028
    || c == 0x2029
    || c == 0x202f
    || c == 0x205f
    || c == 0x3000

unfoldable pub trim_left : Bytes → Bytes
trim_left [] = []
trim_left (c ∷ cs) = if is_space c then trim_left cs else c ∷ cs

-- `strings.TrimSpace`.
unfoldable pub trim_space : Bytes → Bytes
unfolding trim_left
trim_space cs = reverse (trim_left (reverse (trim_left cs)))

-- Go's `==` on texts as bytes.
abbrev pub same : Bytes → Bytes → Bool
same [] [] = true
same (c ∷ cs) (d ∷ ds) = c == d && same cs ds
same _ _ = false

-- `strings.HasPrefix`.
abbrev pub has_prefix : Bytes → Bytes → Bool
has_prefix cs [] = true
has_prefix [] (d ∷ ds) = false
has_prefix (c ∷ cs) (d ∷ ds) = c == d && has_prefix cs ds
