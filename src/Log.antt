-- ===== src/Log.antt =====
-- pkg/log/log.go: the levels, and which messages a logger writes. Texts are ASCII; what is behind the output
-- is the list of the messages that were written, each with the line break that ends it.
use dpu_simulator.Base.{
  ℕ, ◌+◌, ◌≡◌, refl, Bool, false, ◌&&◌, ◌||◌, List, [], ◌∷◌, ◌++◌, map, if◌then◌else◌, ltb, leb,
  ◌==◌,
}
use dpu_simulator.Base.Text.{Bytes, codes, same, trim_space}

pub data Level : Type 0 where
  error warn info debug : Level

unfoldable pub rank : Level → ℕ
rank error = 0
rank warn = 1
rank info = 2
rank debug = 3

unfoldable pub level_string : Level → Bytes
level_string error = codes "error"
level_string warn = codes "warn"
level_string info = codes "info"
level_string debug = codes "debug"

unfoldable pub to_lower : Bytes → Bytes
to_lower s = map (λ c. if leb b'A' c && leb c b'Z' then c + 32 else c) s

unfoldable pub parse_level : Bytes → Level
unfolding to_lower trim_space
parse_level s =
    let level = to_lower (trim_space s) in
    if same level (codes "error") || same level (codes "err")
    then error
    else if same level (codes "warn") || same level (codes "warning")
    then warn
    else if same level (codes "info")
    then info
    else if same level (codes "debug") || same level (codes "dbg")
    then debug
    else info

pub record Logger : Type 0 where
  pub level : Level
  pub output : List Bytes

unfoldable pub ends_with_newline : Bytes → Bool
ends_with_newline [] = false
ends_with_newline (c ∷ []) = c == 10
ends_with_newline (c ∷ d ∷ cs) = ends_with_newline (d ∷ cs)

unfoldable pub set_level : Level → Logger → Logger
set_level level l = record l { level = level }

-- The method `log`, with the message that has been formatted.
unfoldable pub write : Level → Bytes → Logger → Logger
unfolding rank ends_with_newline
write level msg l = if ltb (rank l.level) (rank level) then l else record l {
  output = l.output ++ (if ends_with_newline msg then msg else msg ++ 10 ∷ []) ∷ [];
}

-- The name of a level is read as that level.
parse_level-level_string : (l : Level) → parse_level (level_string l) ≡ l
unfolding parse_level level_string to_lower trim_space
parse_level-level_string error = refl
parse_level-level_string warn = refl
parse_level-level_string info = refl
parse_level-level_string debug = refl
