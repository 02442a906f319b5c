-- ===== src/AuthManager.antt =====
-- tyfirc-server/tyfirc-authmanager.h and tyfirc-server/tyfirc-authmanager.cpp: the accounts, which
-- are read from a file and written back to it.
pub mod Accounts
pub mod Lines
pub mod Files
pub mod Blanks
use tyfirc.Base.{
  ℕ, suc, ◌+◌, ◌-◌, Bool, true, false, Option, none, some, List, [], ◌∷◌, ◌++◌, if◌then◌else◌,
  length, drop,
}
use tyfirc.Base.Text.{Str, str_eq, find, find_from, next_index, substr}
use tyfirc.Base.Map.{Map, lookup, insert}
use tyfirc.Base.Result.{Result, ok, throw, ub, invalid_argument, ◌>>=◌}
use tyfirc.Misc.{split}

-- `class FileAuthManager`.
pub record FileAuthManager : Type 0 where
  pub auth_filename : Str
  pub is_file_outdated : Bool
  pub auth_info : Map Str

abbrev pub new_manager : FileAuthManager
new_manager = record { auth_filename = []; is_file_outdated = false; auth_info = [] }

-- The files: their contents by name.
abbrev pub Files : Type 0
Files = Str → Option Str

-- `Login`: a name that `at` does not find is refused.
unfoldable pub login : FileAuthManager → Str → Str → Bool
login a username password = elim (lookup username a.auth_info) [
  | none ↦ false
  | some stored ↦ str_eq stored password
]

-- `Register`.
unfoldable pub register : FileAuthManager → Str → Str → FileAuthManager × Bool
register a username password = elim (lookup username a.auth_info) [
  | some stored ↦ (a, false)
  | none ↦
      (record a { is_file_outdated = true; auth_info = insert username password a.auth_info }, true)
]

-- `line.size() - space_ind - 1`; with `npos` for the index this wraps around to the size.
unfoldable pub count_behind : Str → Option ℕ → ℕ
count_behind line none = length line
count_behind line (some i) = length line - i - 1

-- `line.substr(0, space_ind)`; `npos` is to the end.
unfoldable pub count_before : Str → Option ℕ → ℕ
count_before line none = length line
count_before line (some i) = i

-- The body of the loop of `MapAuthInfoStr` behind `line.find(' ')`.
unfoldable pub parse_line_at : Str → Option ℕ → Result (Str × Str)
unfolding count_behind count_before
parse_line_at line space_ind = elim (find_from line b' ' (next_index space_ind)) [
  | some i ↦ throw invalid_argument
  | none ↦ do
    username ← substr line 0 (count_before line space_ind)
    password ← substr line (next_index space_ind) (count_behind line space_ind)
    ok (username, password)
]

-- The body of the loop: the name and the password of one line.
unfoldable pub parse_line : Str → Result (Str × Str)
unfolding parse_line_at
parse_line line = parse_line_at line (find line b' ')

-- The loop of `MapAuthInfoStr`. What it stored before it throws stays stored.
unfoldable pub map_lines : List Str → Map Str → Map Str × Result (Unit {0})
map_lines [] m = (m, ok tt)
map_lines (line ∷ lines) m = elim (parse_line line) [
  | ok (username, password) ↦ map_lines lines (insert username password m)
  | throw e ↦ (m, throw e)
  | ub ↦ (m, ub)
]

unfoldable pub map_auth_info_str : FileAuthManager → Str → FileAuthManager × Result (Unit {0})
unfolding map_lines
map_auth_info_str a str =
    let (m, result) = map_lines (split str b'\n') a.auth_info in
    (record a { auth_info = m }, result)

-- `auth_filename_ = auth_filename` is reached only if nothing was thrown.
unfoldable pub set_filename :
    Str → FileAuthManager × Result (Unit {0}) → FileAuthManager × Result (Unit {0})
set_filename name (a, ok u) = (record a { auth_filename = name }, ok tt)
set_filename name (a, throw e) = (a, throw e)
set_filename name (a, ub) = (a, ub)

-- `Setup`.
unfoldable pub setup : Files → FileAuthManager → Str → FileAuthManager × Result (Unit {0})
unfolding map_auth_info_str set_filename
setup files a name = elim (files name) [
  | none ↦ (a, throw invalid_argument)
  | some str ↦ set_filename name (map_auth_info_str a str)
]

-- What the destructor writes.
unfoldable pub render : Map Str → Str
render [] = []
render ((username, password) ∷ m) = username ++ (b' ' ∷ (password ++ (b'\n' ∷ render m)))

-- Writing at the start of a file that is opened for reading and writing: it is not cut off.
abbrev pub overwrite : Str → Str → Str
overwrite text old = text ++ drop (length text) old

abbrev pub write_file : Files → Str → Str → Files
write_file files name text n = if str_eq n name then some text else files n

-- `~FileAuthManager`: a file that cannot be opened is left alone.
unfoldable pub destroy : FileAuthManager → Files → Files
destroy a files = if a.is_file_outdated then saved (files a.auth_filename) else files
  where
    saved : Option Str → Files
    saved none = files
    saved (some old) = write_file files a.auth_filename (overwrite (render a.auth_info) old)
