-- ===== src/Platform/Distro.antt =====
-- pkg/platform/distro.go and the architectures of pkg/platform/types.go. Texts are bytes.
pub mod Release
use dpu_simulator.Base.{
  ℕ, ◌≡◌, refl, Bool, true, false, not, ◌&&◌, ◌||◌, List, [], ◌∷◌, ◌++◌, Option, none, some,
  if◌then◌else◌, ◌==◌, any,
}
use dpu_simulator.Base.Text.{Bytes, codes, same, has_prefix, trim_space}
use dpu_simulator.Platform.Executor.{Executor, Action, done, fail, ◌>>=◌}

pub record Distro : Type 0 where
  pub id : Bytes
  pub version_id : Bytes
  pub id_like : Bytes
  pub architecture : Bytes
  pub package_manager : Bytes

unfoldable pub go_arch : Bytes → Bytes
go_arch a =
    if same a (codes "x86_64")
    then codes "amd64"
    else if same a (codes "aarch64")
    then codes "arm64"
    else a

-- strings.Contains.
unfoldable pub contains_text : Bytes → Bytes → Bool
contains_text [] part = has_prefix [] part
contains_text (c ∷ s) part = has_prefix (c ∷ s) part || contains_text s part

unfoldable pub is_fedora_like : Distro → Bool
unfolding contains_text
is_fedora_like d =
    any (same d.id)
      (codes "fedora" ∷ codes "rhel" ∷ codes "centos" ∷ codes "rocky" ∷ codes "almalinux" ∷ [])
    || contains_text d.id_like (codes "fedora")
    || contains_text d.id_like (codes "rhel")

unfoldable pub is_debian_like : Distro → Bool
unfolding contains_text
is_debian_like d =
    any (same d.id) (codes "debian" ∷ codes "ubuntu" ∷ codes "linuxmint" ∷ codes "pop" ∷ [])
    || contains_text d.id_like (codes "debian")
    || contains_text d.id_like (codes "ubuntu")

unfoldable pub detect_package_manager : Distro → Bytes
unfolding is_fedora_like is_debian_like
detect_package_manager d =
    if is_fedora_like d
    then codes "dnf"
    else if is_debian_like d
    then codes "apt"
    else if same d.id (codes "alpine")
    then codes "apk"
    else codes "unknown"

-- Before and behind the first `=`.
unfoldable pub split_equals : Bytes → Option (Bytes × Bytes)
split_equals [] = none
split_equals (c ∷ cs) =
    let rest = split_equals cs in
    if c == b'=' then some ([], cs) else elim rest [ none ↦ none | some (k, v) ↦ some (c ∷ k, v) ]

abbrev is_quote : ℕ → Bool
is_quote c = c == 34 || c == 39

unfoldable pub trim_quotes_left : Bytes → Bytes
trim_quotes_left [] = []
trim_quotes_left (c ∷ cs) = let rest = trim_quotes_left cs in if is_quote c then rest else c ∷ cs

unfoldable pub trim_quotes_right : Bytes → Bytes
trim_quotes_right [] = []
trim_quotes_right (c ∷ cs) = elim (trim_quotes_right cs) [
  | [] ↦ if is_quote c then [] else c ∷ []
  | d ∷ ds ↦ c ∷ d ∷ ds
]

unfoldable pub trim_quotes : Bytes → Bytes
unfolding trim_quotes_left trim_quotes_right
trim_quotes s = trim_quotes_right (trim_quotes_left s)

-- The switch over the keys.
unfoldable pub set_key : Bytes → Bytes → Distro → Distro
set_key key value d =
    if same key (codes "ID")
    then record d { id = value }
    else if same key (codes "VERSION_ID")
    then record d { version_id = value }
    else if same key (codes "ID_LIKE")
    then record d { id_like = value }
    else d

unfoldable pub read_line : Bytes → Distro → Distro
unfolding trim_space split_equals trim_quotes set_key
read_line raw d =
    let line = trim_space raw in
    if same line [] || has_prefix line (codes "#") then d else elim (split_equals line) [
      | none ↦ d
      | some (key, value) ↦ set_key key (trim_quotes value) d
    ]

-- A byte that is no line break joins the line behind it.
unfoldable pub push_byte : ℕ → List Bytes → List Bytes
push_byte c [] = (c ∷ []) ∷ []
push_byte c (line ∷ lines) = (c ∷ line) ∷ lines

unfoldable pub split_lines : Bytes → List Bytes
unfolding push_byte
split_lines [] = [] ∷ []
split_lines (c ∷ cs) = let rest = split_lines cs in if c == 10 then [] ∷ rest else push_byte c rest

unfoldable pub read_lines : List Bytes → Distro → Distro
unfolding read_line
read_lines [] d = d
read_lines (line ∷ lines) d = read_lines lines (read_line line d)

unfoldable pub parse_os_release : Bytes → Distro
unfolding split_lines read_lines detect_package_manager
parse_os_release content =
    let d = read_lines (split_lines content) (record {
      id = [];
      version_id = [];
      id_like = [];
      architecture = [];
      package_manager = [];
    }) in
    record d { package_manager = detect_package_manager d }

module _ {W : Type 0} (x : Executor W) where
  unfoldable pub detect_architecture : Action W Bytes
  unfolding trim_space
  detect_architecture = do
    stdout ← x.execute_with_timeout "uname -m" 10_000_000_000
    done (trim_space (codes stdout))

  unfoldable pub detect_distro : Action W Distro
  unfolding parse_os_release detect_architecture
  detect_distro = do
    stdout ← x.execute_with_timeout "cat /etc/os-release" 30_000_000_000
    arch ← detect_architecture
    done (record (parse_os_release (codes stdout)) { architecture = arch })

-- A release file of Rocky Linux.
rocky-parse_os_release :
    parse_os_release (
      codes
        "# os\nNAME=\"Rocky Linux\"\nID=\"rocky\"\nID_LIKE=\"rhel centos fedora\"\nVERSION_ID='9.4'\n")
    ≡ record {
      id = codes "rocky";
      version_id = codes "9.4";
      id_like = codes "rhel centos fedora";
      architecture = [];
      package_manager = codes "dnf";
    }
unfolding parse_os_release read_lines split_lines push_byte read_line trim_space split_equals
    trim_quotes trim_quotes_left trim_quotes_right set_key detect_package_manager is_fedora_like
rocky-parse_os_release = refl

-- The last of several keys counts, and a line without `=` says nothing.
twice-parse_os_release :
    (parse_os_release (codes "ID=alpine\nID\n ID=ubuntu ")).package_manager ≡ codes "apt"
unfolding parse_os_release read_lines split_lines push_byte read_line trim_space split_equals
    trim_quotes trim_quotes_left trim_quotes_right set_key detect_package_manager is_fedora_like
    is_debian_like contains_text
twice-parse_os_release = refl
