-- ===== src/AuthManager/Blanks.antt =====
-- An account whose name holds a blank: its line in the file is refused.
use tyfirc.Base.{
  ◌≤◌, true, false, ◌≡◌, inl, inr, refl, some, [], ◌∷◌, ◌++◌, map, append_assoc, Lacks, length,
  Bool-cases,
}
use tyfirc.Base.Text.{Str, str_eq}
use tyfirc.Base.Text.Order.{str_eq→eq}
use tyfirc.Base.Text.Parts.{find-cases}
use tyfirc.Base.Map.{Map, insert, lookup}
use tyfirc.Base.Result.{Result, ok, throw, ub, invalid_argument}
use tyfirc.AuthManager.Lines.{line_text, parse_line_blanks, parse_line-cases}
use tyfirc.AuthManager.{
  FileAuthManager, Files, new_manager, parse_line, map_lines, set_filename, setup, render, destroy,
}
use tyfirc.AuthManager.Files.{OneLine, line_text-Lacks, split-render, lookup_later, destroy-render}

-- A line whose name holds a blank is refused.
parse_line_blank_name :
    (p q v : Str)
    → Lacks b' ' p
    → parse_line (line_text (p ++ (b' ' ∷ q), v)) ≡ throw invalid_argument
parse_line_blank_name p q v hp = elim (find-cases q b' ') [
  | inr (lacks, _) ↦ rw (append_assoc p (b' ' ∷ q) (b' ' ∷ v)) (parse_line_blanks p q v hp lacks)
  | inl (r, t, e, hr, _) ↦
      rw (append_assoc p (b' ' ∷ q) (b' ' ∷ v), e, append_assoc r (b' ' ∷ t) (b' ' ∷ v))
        (parse_line_blanks p r (t ++ (b' ' ∷ v)) hp hr)
]

map_lines-blank :
    (m m₀ : Map Str) (p q password : Str)
    → OneLine m
    → lookup (p ++ (b' ' ∷ q)) m ≡ some password
    → Lacks b' ' p
    → (map_lines (map line_text m) m₀).1 ≡ throw invalid_argument
unfolding map_lines
map_lines-blank [] m₀ p q password h e hp = unfold lookup in cc
map_lines-blank ((k, v) ∷ m) m₀ p q password (h, hs) e hp =
    elim (Bool-cases (str_eq (p ++ (b' ' ∷ q)) k)) [
      | inl here ↦ rw (← str_eq→eq _ k here, parse_line_blank_name p q v hp, map_lines) refl
      | inr there ↦ elim (parse_line-cases (line_text (k, v)) (line_text-Lacks k v h.0 h.1)) [
        | inr fails ↦ rw (fails, map_lines) refl
        | inl (j, w, parsed, fits) ↦
            rw (parsed, map_lines)
              (map_lines-blank m (insert j w m₀) p q password hs (later there) hp)
      ]
    ]
  where
    later : str_eq (p ++ (b' ' ∷ q)) k ≡ false → lookup (p ++ (b' ' ∷ q)) m ≡ some password
    later there = lookup_later (p ++ (b' ' ∷ q)) k v m password there e

-- If no account holds a newline and the file's old text is not longer than the new one, then one
-- account whose name holds a blank, in a manager that was changed and destroyed, makes `Setup` throw
-- at the next start.
pub setup-destroy_blank :
    (a : FileAuthManager) (files : Files) (old p q password : Str)
    → OneLine a.auth_info
    → lookup (p ++ (b' ' ∷ q)) a.auth_info ≡ some password
    → Lacks b' ' p
    → a.is_file_outdated ≡ true
    → files a.auth_filename ≡ some old
    → length old ≤ length (render a.auth_info)
    → (setup (destroy a files) new_manager a.auth_filename).1 ≡ throw invalid_argument
unfolding setup
setup-destroy_blank a files old p q password h e hp outdated there fits =
    rw (destroy-render a files old outdated there fits, setup, split-render a.auth_info h)
      (refused (map_lines (map line_text a.auth_info) [])
        (map_lines-blank a.auth_info [] p q password h e hp))
  where
    refused :
        (r : Map Str × Result (Unit {0}))
        → r.1 ≡ throw invalid_argument
        → (set_filename a.auth_filename (record new_manager { auth_info = r.0 }, r.1)).1
          ≡ throw invalid_argument
    refused (m, ok u) h = cc
    refused (m, throw x) h = h
    refused (m, ub) h = cc
