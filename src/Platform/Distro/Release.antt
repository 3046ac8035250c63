-- ===== src/Platform/Distro/Release.antt =====
-- What ParseOSRelease of pkg/platform/distro.go reads from a file of quoted values.
use mathlib.Core.List.{reverse}
use mathlib.Mathlib.Data.List.Basic.{reverse-concat', reverse-Involutive}
use dpu_simulator.Base.{ℕ, ◌≡◌, ◌∙◌, ap, sym, refl, false, [], ◌∷◌, ◌++◌, if◌then◌else◌, ◌==◌, All}
use dpu_simulator.Base.Text.{Bytes, codes, trim_left, trim_space, is_space}
use dpu_simulator.Platform.Distro.{
  Distro, split_equals, trim_quotes, trim_quotes_left, trim_quotes_right, set_key, read_line,
  push_byte, split_lines, read_lines, parse_os_release, detect_package_manager,
}

-- No line break and no quote.
abbrev pub Plain : ℕ → Type 0
Plain c = ((c == 10) ≡ false) × ((c == 34) ≡ false) × ((c == 39) ≡ false)

abbrev quoted : Bytes → Bytes
quoted v = 34 ∷ (v ++ 34 ∷ [])

abbrev Unbroken : Bytes → Type 0
Unbroken line = All (λ c. (c == 10) ≡ false) line

split_lines-line :
    (line rest : Bytes) → Unbroken line → split_lines (line ++ 10 ∷ rest) ≡ line ∷ split_lines rest
unfolding split_lines push_byte
split_lines-line [] rest u = refl
split_lines-line (c ∷ line) rest (h, u) = rw (h, split_lines-line line rest u) refl

trim_quotes_right-Plain : (v : Bytes) → All Plain v → trim_quotes_right (v ++ 34 ∷ []) ≡ v
unfolding trim_quotes_right
trim_quotes_right-Plain [] p = refl
trim_quotes_right-Plain (c ∷ []) ((_, q, a), p) = rw (q, a) refl
trim_quotes_right-Plain (c ∷ d ∷ v) (p, ps) = rw (trim_quotes_right-Plain (d ∷ v) ps) refl

trim_quotes-quoted : (v : Bytes) → All Plain v → trim_quotes (quoted v) ≡ v
unfolding trim_quotes trim_quotes_left
trim_quotes-quoted [] p = refl
trim_quotes-quoted (c ∷ v) ((n, q, a), p) =
    rw (q, a) (trim_quotes_right-Plain (c ∷ v) ((n, q, a), p))

trim_left-keeps : (c : ℕ) (cs : Bytes) → is_space c ≡ false → trim_left (c ∷ cs) ≡ c ∷ cs
unfolding trim_left
trim_left-keeps c cs h = ap (λ b. if b then trim_left cs else c ∷ cs) h

-- A line that begins and ends with no space keeps both ends.
trim_space-ends :
    (c d : ℕ) (line : Bytes)
    → is_space c ≡ false
    → is_space d ≡ false
    → trim_space (c ∷ (line ++ d ∷ [])) ≡ c ∷ (line ++ d ∷ [])
unfolding trim_space
trim_space-ends c d line hc hd =
    ap (λ l. reverse (trim_left (reverse l))) (trim_left-keeps c (line ++ d ∷ []) hc)
    ∙ ap (λ l. reverse (trim_left l)) (reverse-concat' (c ∷ line) d)
    ∙ ap reverse (trim_left-keeps d (reverse (c ∷ line)) hd)
    ∙ ap reverse (sym (reverse-concat' (c ∷ line) d))
    ∙ reverse-Involutive (c ∷ line ++ d ∷ [])

-- A line for a key of its own, with a quoted value.
abbrev release_line : Bytes → Bytes → Bytes
release_line key v = key ++ b'=' ∷ quoted v

module _ (v : Bytes) (plain : All Plain v) (d : Distro) where
  -- The three keys that are read.
  read_line-id : read_line (release_line (codes "ID") v) d ≡ record d { id = v }
  unfolding read_line split_equals set_key
  read_line-id =
      rw (trim_space-ends b'I' 34 (b'D' ∷ b'=' ∷ 34 ∷ v) refl refl)
        (ap (λ x. record d { id = x }) (trim_quotes-quoted v plain))

  read_line-version_id :
      read_line (release_line (codes "VERSION_ID") v) d ≡ record d { version_id = v }
  unfolding read_line split_equals set_key
  read_line-version_id =
      rw (trim_space-ends b'V' 34 (codes "ERSION_ID" ++ b'=' ∷ 34 ∷ v) refl refl)
        (ap (λ x. record d { version_id = x }) (trim_quotes-quoted v plain))

  read_line-id_like : read_line (release_line (codes "ID_LIKE") v) d ≡ record d { id_like = v }
  unfolding read_line split_equals set_key
  read_line-id_like =
      rw (trim_space-ends b'I' 34 (codes "D_LIKE" ++ b'=' ∷ 34 ∷ v) refl refl)
        (ap (λ x. record d { id_like = x }) (trim_quotes-quoted v plain))

quoted-Unbroken : (v : Bytes) → All Plain v → Unbroken (v ++ 34 ∷ [])
quoted-Unbroken [] p = (refl, tt)
quoted-Unbroken (c ∷ v) ((n, _, _), p) = (n, quoted-Unbroken v p)

-- A release file with the three keys that are read.
unfoldable pub release : Bytes → Bytes → Bytes → Bytes
release id version_id id_like =
    release_line (codes "ID") id
    ++ 10
      ∷ (release_line (codes "VERSION_ID") version_id
          ++ 10 ∷ (release_line (codes "ID_LIKE") id_like ++ 10 ∷ []))

abbrev pub distro_of : Bytes → Bytes → Bytes → Distro
distro_of id version_id id_like = record {
  id = id;
  version_id = version_id;
  id_like = id_like;
  architecture = [];
  package_manager = [];
}

read_line-nil : (d : Distro) → read_line [] d ≡ d
unfolding read_line trim_space trim_left
read_line-nil d = refl

release-lines :
    (id version_id id_like : Bytes)
    → All Plain id
    → All Plain version_id
    → All Plain id_like
    → split_lines (release id version_id id_like)
      ≡ release_line (codes "ID") id
        ∷ release_line (codes "VERSION_ID") version_id
        ∷ release_line (codes "ID_LIKE") id_like
        ∷ []
        ∷ []
unfolding release split_lines
release-lines id version_id id_like p q r =
    split_lines-line (release_line (codes "ID") id) _
      (refl, (refl, (refl, (refl, quoted-Unbroken id p))))
    ∙ ap (◌∷◌ (release_line (codes "ID") id)) (
        split_lines-line (release_line (codes "VERSION_ID") version_id) _ (
          refl,
          (
            refl,
            (
              refl,
              (
                refl,
                (
                  refl,
                  (
                    refl,
                    (refl, (refl, (refl, (refl, (refl, (refl, quoted-Unbroken version_id q)))))),
                  ),
                ),
              ),
            ),
          ),
        )
        ∙ ap (◌∷◌ (release_line (codes "VERSION_ID") version_id)) (
            split_lines-line (release_line (codes "ID_LIKE") id_like) [] (
              refl,
              (
                refl,
                (refl, (refl, (refl, (refl, (refl, (refl, (refl, quoted-Unbroken id_like r))))))),
              ),
            )))

release-read :
    (id version_id id_like : Bytes)
    → All Plain id
    → All Plain version_id
    → All Plain id_like
    → read_lines (split_lines (release id version_id id_like)) (distro_of [] [] [])
      ≡ distro_of id version_id id_like
unfolding read_lines
release-read id version_id id_like p q r =
    ap (λ lines. read_lines lines (distro_of [] [] [])) (release-lines id version_id id_like p q r)
    ∙ ap
        (λ d. read_line [] (
          read_line (release_line (codes "ID_LIKE") id_like)
            (read_line (release_line (codes "VERSION_ID") version_id) d)))
        (read_line-id id p (distro_of [] [] []))
    ∙ ap (λ d. read_line [] (read_line (release_line (codes "ID_LIKE") id_like) d))
        (read_line-version_id version_id q (distro_of id [] []))
    ∙ ap (read_line []) (read_line-id_like id_like r (distro_of id version_id []))
    ∙ read_line-nil (distro_of id version_id id_like)

-- A release file with quoted values, which hold no quotes and no line breaks, is read back; its package manager
-- is that of the distribution.
pub parse_os_release-release :
    (id version_id id_like : Bytes)
    → All Plain id
    → All Plain version_id
    → All Plain id_like
    → parse_os_release (release id version_id id_like) ≡ record (distro_of id version_id id_like) {
      package_manager = detect_package_manager (distro_of id version_id id_like);
    }
unfolding parse_os_release
parse_os_release-release id version_id id_like p q r =
    ap with_manager (release-read id version_id id_like p q r)
  where
    with_manager : Distro → Distro
    with_manager d = record d { package_manager = detect_package_manager d }
