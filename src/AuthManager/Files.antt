-- ===== src/AuthManager/Files.antt =====
-- The account file: what `Setup` reads, and that it reads back what the destructor wrote.
use tyfirc.Base.{
  ℕ, zero, suc, ◌+◌, ◌≤◌, true, false, ◌≡◌, inl, inr, refl, sym, ap, ◌∙◌, none, some, List, [], ◌∷◌,
  ◌++◌, map, arith, append_assoc, append-nil, All, All-append, Lacks, length, length-append, drop,
  Option-cases,
}
use tyfirc.Base.Text.{Str, str_eq}
use tyfirc.Base.Text.Order.{str_eq_refl}
use tyfirc.Base.Map.{Map, insert, lookup}
use tyfirc.Base.Map.Order.{IsOrdered, insert-IsOrdered, insert_all, insert_all-IsOrdered}
use tyfirc.Base.Result.{Result, ok, throw, ub}
use tyfirc.Misc.{split, getlines}
use tyfirc.Misc.Split.{getlines_line, split-Lacks}
use tyfirc.AuthManager.Lines.{line_text, parse_line_pair, IsStorable, parse_line-cases}
use tyfirc.AuthManager.{
  FileAuthManager, Files, new_manager, map_lines, set_filename, setup, register, render, destroy,
}

-- The accounts are in order, and lines can carry them.
pub record IsStored (m : Map Str) : Type 0 where
  pub ordered : IsOrdered m
  pub storable : All IsStorable m

-- No name and no password holds a newline.
abbrev pub OneLine : Map Str → Type 0
OneLine = All (λ e. Lacks b'\n' e.0 × Lacks b'\n' e.1)

pub line_text-Lacks : (k v : Str) → Lacks b'\n' k → Lacks b'\n' v → Lacks b'\n' (line_text (k, v))
line_text-Lacks k v hk hv = All-append _ k (b' ' ∷ v) hk (omega arith, hv)

-- The file that the destructor writes has one line for each account.
pub split-render : (m : Map Str) → OneLine m → split (render m) b'\n' ≡ map line_text m
unfolding split render
split-render [] h = unfold getlines in refl
split-render ((k, v) ∷ m) (h, hs) =
    ap (getlines b'\n' false []) (sym (append_assoc k (b' ' ∷ v) (b'\n' ∷ render m)))
    ∙ getlines_line b'\n' (line_text (k, v)) (render m) (line_text-Lacks k v h.0 h.1)
    ∙ ap (◌∷◌ (line_text (k, v))) (split-render m hs)

pub lookup_later :
    (name k v : Str) (m : Map Str) (password : Str)
    → str_eq name k ≡ false
    → lookup name ((k, v) ∷ m) ≡ some password
    → lookup name m ≡ some password
unfolding lookup
lookup_later name k v m password there e = rw there at e

map_lines-line_text :
    (m m₀ : Map Str) → All IsStorable m → map_lines (map line_text m) m₀ ≡ (insert_all m m₀, ok tt)
unfolding map_lines insert_all
map_lines-line_text [] m₀ h = refl
map_lines-line_text ((k, v) ∷ m) m₀ (h, hs) =
    rw (parse_line_pair k v h.0 h.2, map_lines) (map_lines-line_text m (insert k v m₀) hs)

storable-OneLine : (m : Map Str) → All IsStorable m → OneLine m
storable-OneLine [] h = tt
storable-OneLine (e ∷ m) (h, hs) = ((h.1, h.3), storable-OneLine m hs)

-- What a file with the written accounts gives to a new manager.
pub setup-render :
    (files : Files) (name : Str) (m : Map Str)
    → IsStored m
    → files name ≡ some (render m)
    → setup files new_manager name
      ≡ (record { auth_filename = name; is_file_outdated = false; auth_info = m }, ok tt)
unfolding setup
setup-render files name m s e =
    rw
      (
        e,
        setup,
        split-render m (storable-OneLine m s.storable),
        map_lines-line_text m [] s.storable,
        insert_all-IsOrdered m s.ordered,
      )
      refl

insert-IsStorable :
    (k v : Str) (m : Map Str) → IsStorable (k, v) → All IsStorable m → All IsStorable (insert k v m)
unfolding insert
insert-IsStorable k v [] h hs = (h, tt)
insert-IsStorable k v ((j, w) ∷ m) h hs = ground (arith, insert-IsStorable k v m h hs.1)

map_lines-IsStored :
    (lines : List Str) (m : Map Str)
    → All (Lacks b'\n') lines
    → IsStored m
    → IsStored (map_lines lines m).0
unfolding map_lines
map_lines-IsStored [] m h s = s
map_lines-IsStored (line ∷ lines) m (h, hs) s = elim (parse_line-cases line h) [
  | inr fails ↦ rw (fails, map_lines) s
  | inl (k, v, parsed, fits) ↦
      rw (parsed, map_lines)
        (map_lines-IsStored lines (insert k v m) hs (record {
          ordered = insert-IsOrdered k v m s.ordered;
          storable = insert-IsStorable k v m fits s.storable;
        }))
]

-- From a manager whose accounts are in order and can be written and read back, `Setup` leaves such a
-- manager, whatever the file holds, and also if it throws.
pub setup-IsStored :
    (files : Files) (a : FileAuthManager) (name : Str)
    → IsStored a.auth_info
    → IsStored (setup files a name).0.auth_info
unfolding setup
setup-IsStored files a name s = elim (Option-cases (files name)) [
  | inl e ↦ rw (e, setup) s
  | inr (str, e) ↦
      rw (e, setup)
        (kept (map_lines (split str b'\n') a.auth_info)
          (map_lines-IsStored _ a.auth_info (split-Lacks b'\n' str) s))
]
  where
    kept :
        (r : Map Str × Result (Unit {0}))
        → IsStored r.0
        → IsStored (set_filename name (record a { auth_info = r.0 }, r.1)).0.auth_info
    kept (m, ok u) s = s
    kept (m, throw e) s = s
    kept (m, ub) s = s

drop_all : (n : ℕ) (old : Str) → length old ≤ n → drop n old ≡ []
drop_all zero [] h = refl
drop_all (suc n) [] h = refl
drop_all zero (c ∷ old) h = absurd (omega arith)
drop_all (suc n) (c ∷ old) h = drop_all n old (omega arith)

-- The file behind the destructor, if the file was there and its old text was not longer.
pub destroy-render :
    (a : FileAuthManager) (files : Files) (old : Str)
    → a.is_file_outdated ≡ true
    → files a.auth_filename ≡ some old
    → length old ≤ length (render a.auth_info)
    → destroy a files a.auth_filename ≡ some (render a.auth_info)
unfolding destroy
destroy-render a files old outdated there fits =
    rw (outdated, destroy, there, str_eq_refl a.auth_filename)
      (ap some (ap (◌++◌ (render a.auth_info)) (drop_all _ old fits) ∙ append-nil _))

-- A manager that was changed and destroyed is restored by `Setup` from its file, if its accounts
-- can be written and the file's old text was not longer than the new one.
pub setup-destroy :
    (a : FileAuthManager) (files : Files) (old : Str)
    → IsStored a.auth_info
    → a.is_file_outdated ≡ true
    → files a.auth_filename ≡ some old
    → length old ≤ length (render a.auth_info)
    → setup (destroy a files) new_manager a.auth_filename
      ≡ (record a { is_file_outdated = false }, ok tt)
setup-destroy a files old s outdated there fits =
    setup-render (destroy a files) a.auth_filename a.auth_info s
      (destroy-render a files old outdated there fits)

length-render-cons :
    (k v : Str) (m : Map Str)
    → length (render ((k, v) ∷ m)) ≡ length k + length v + 2 + length (render m)
unfolding render
length-render-cons k v m =
    omega (
      arith,
      length-append k (b' ' ∷ (v ++ (b'\n' ∷ render m))),
      length-append v (b'\n' ∷ render m),
    )

length-render-insert :
    (k v : Str) (m : Map Str)
    → lookup k m ≡ none
    → length (render m) ≤ length (render (insert k v m))
unfolding insert lookup
length-render-insert k v [] h = unfold render in omega arith
length-render-insert k v ((j, w) ∷ m) h = ground (
  arith,
  length-render-insert k v m,
  length-render-cons k v ((j, w) ∷ m),
  length-render-cons j w m,
  length-render-cons j w (insert k v m),
)

-- The manager that has read the accounts `m` from a file.
abbrev pub loaded : Str → Map Str → FileAuthManager
loaded name m = record { auth_filename = name; is_file_outdated = false; auth_info = m }

-- If the file holds the accounts `m`, written as the destructor writes them, in order and such that
-- lines can carry them, then `Setup` loads them; and a manager that has loaded them, registers a new
-- name with a password that a line can carry and is destroyed leaves a file from which the next one
-- loads all of them.
pub setup-register :
    (files : Files) (name username password : Str) (m : Map Str)
    → IsStored m
    → files name ≡ some (render m)
    → lookup username m ≡ none
    → IsStorable (username, password)
    → (setup files new_manager name ≡ (loaded name m, ok tt))
      × (setup (destroy (register (loaded name m) username password).0 files) new_manager name
          ≡ (loaded name (insert username password m), ok tt))
unfolding register
setup-register files name username password m s there fresh fits =
    let a' : FileAuthManager = record {
      auth_filename = name;
      is_file_outdated = true;
      auth_info = insert username password m;
    } in
    (
      setup-render files name m s there,
      rw (fresh, register)
          (setup-destroy a' files (render m)
            (record {
              ordered = insert-IsOrdered username password m s.ordered;
              storable = insert-IsStorable username password m fits s.storable;
            })
            refl there (length-render-insert username password m fresh)),
    )
