-- ===== src/Base/Trim.antt =====
-- `strings.TrimSpace` on a text.
use Prim.Native.Char.{Char, code}
use Prim.Native.String.{String}
use dpu_simulator.Base.{
  ◌≡◌, ◌∙◌, ap, refl, Bool, true, false, ◌&&◌, if◌then◌else◌, Bool-cases, inl, inr,
}
use dpu_simulator.Base.Text.{is_space}

abbrev is_empty_text : String → Bool
is_empty_text String.[] = true
is_empty_text (String.◌∷◌ c s) = false

unfoldable pub trim_start : String → String
trim_start String.[] = String.[]
trim_start (String.◌∷◌ c s) = if is_space (code c) then trim_start s else String.◌∷◌ c s

unfoldable pub push_unless_blank : Char → String → String
push_unless_blank c rest =
    if is_space (code c) && is_empty_text rest then String.[] else String.◌∷◌ c rest

unfoldable pub trim_end : String → String
unfolding push_unless_blank
trim_end String.[] = String.[]
trim_end (String.◌∷◌ c s) = push_unless_blank c (trim_end s)

unfoldable pub trim_text : String → String
unfolding trim_start trim_end
trim_text s = trim_end (trim_start s)

push_idem :
    (c : Char) (rest : String)
    → trim_end rest ≡ rest
    → trim_end (push_unless_blank c rest) ≡ push_unless_blank c rest
unfolding trim_end push_unless_blank
push_idem c rest h = elim (Bool-cases (is_space (code c) && is_empty_text rest)) [
  | inl e ↦ rw e refl
  | inr e ↦ rw (e, h, e) refl
]

trim_end_idem : (s : String) → trim_end (trim_end s) ≡ trim_end s
unfolding trim_end
trim_end_idem String.[] = refl
trim_end_idem (String.◌∷◌ c s) = push_idem c (trim_end s) (trim_end_idem s)

-- No blank is left at the start, whatever is cut at the end.
trim_start-trim_end : (s : String) → trim_start (trim_end (trim_start s)) ≡ trim_end (trim_start s)
unfolding trim_start trim_end push_unless_blank
trim_start-trim_end String.[] = refl
trim_start-trim_end (String.◌∷◌ c s) = elim (Bool-cases (is_space (code c))) [
  | inl e ↦ rw e (trim_start-trim_end s)
  | inr e ↦ rw (e, trim_end, e) (rw e refl)
]

pub trim_text_idem : (s : String) → trim_text (trim_text s) ≡ trim_text s
unfolding trim_text
trim_text_idem s = ap trim_end (trim_start-trim_end s) ∙ trim_end_idem (trim_start s)
