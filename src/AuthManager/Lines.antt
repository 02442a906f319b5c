-- ===== src/AuthManager/Lines.antt =====
-- Lines of the account file: what they are parsed to, and what they are refused for.
use tyfirc.Base.{
  ℕ, suc, ◌+◌, ◌-◌, ◌≡◌, ◌⊎◌, inl, inr, refl, sym, ap, ◌∙◌, none, some, [], ◌∷◌, ◌++◌, arith,
  append_assoc, append-nil, All-left, All-right, Lacks, length, length-append,
}
use tyfirc.Base.Text.{Str, find, find_from, find-Lacks, find_absent, substr}
use tyfirc.Base.Text.Parts.{find-cases, find_from_lem, substr_middle, substr_suffix, drop-append_at}
use tyfirc.Base.Result.{ok, throw, invalid_argument}
use tyfirc.AuthManager.{parse_line, parse_line_at}

abbrev pub line_text : Str × Str → Str
line_text (k, v) = k ++ (b' ' ∷ v)

-- A search behind the text so far finds nothing in a rest that lacks the character.
find_from_absent :
    (s p q : Str) (c pos : ℕ) → s ≡ p ++ q → pos ≡ length p → Lacks c q → find_from s c pos ≡ none
unfolding find_from
find_from_absent s p q c pos e at_p h =
    rw (e, drop-append_at p q pos at_p, find_absent q c h, find_from) refl

-- A name and a password without blanks are read back from their line.
pub parse_line_pair :
    (k v : Str) → Lacks b' ' k → Lacks b' ' v → parse_line (line_text (k, v)) ≡ ok (k, v)
unfolding parse_line
parse_line_pair k v hk hv =
    ap (parse_line_at src) found ∙ rw (only, parse_line_at, front, back) refl
  where
    src : Str
    src = line_text (k, v)

    found : find src b' ' ≡ some (length k)
    found = find-Lacks k v b' ' hk

    regroup : src ≡ (k ++ b' ' ∷ []) ++ v
    regroup = sym (append_assoc k (b' ' ∷ []) v)

    length-head : suc (length k) ≡ length (k ++ b' ' ∷ [])
    length-head = omega (arith, length-append k (b' ' ∷ []))

    only : find_from src b' ' (suc (length k)) ≡ none
    only = find_from_absent src (k ++ b' ' ∷ []) v b' ' _ regroup length-head hv

    front : substr src 0 (length k) ≡ ok k
    front = substr_middle src [] k (b' ' ∷ v) 0 _ refl refl refl

    back : substr src (suc (length k)) (length src - length k - 1) ≡ ok v
    back =
        substr_suffix src (k ++ b' ' ∷ []) v _ _ regroup length-head
          (omega (arith, length-append k (b' ' ∷ v)))

-- A line with no blank makes an account whose password is its name.
pub parse_line_single : (line : Str) → Lacks b' ' line → parse_line line ≡ ok (line, line)
unfolding parse_line
parse_line_single line h =
    ap (parse_line_at line) (find_absent line b' ' h)
    ∙ rw (find_from_absent line [] line b' ' 0 refl refl h, parse_line_at, whole) refl
  where
    whole : substr line 0 (length line) ≡ ok line
    whole = substr_middle line [] line [] 0 _ (sym (append-nil line)) refl refl

-- A line with two blanks is refused.
pub parse_line_blanks :
    (p q r : Str)
    → Lacks b' ' p
    → Lacks b' ' q
    → parse_line (p ++ (b' ' ∷ (q ++ (b' ' ∷ r)))) ≡ throw invalid_argument
unfolding parse_line
parse_line_blanks p q r hp hq =
    ap (parse_line_at src) (find-Lacks p (q ++ (b' ' ∷ r)) b' ' hp)
    ∙ rw (second, parse_line_at) refl
  where
    src : Str
    src = p ++ (b' ' ∷ (q ++ (b' ' ∷ r)))

    second : find_from src b' ' (suc (length p)) ≡ some (suc (length p) + length q)
    second =
        find_from_lem src (p ++ b' ' ∷ []) q r b' ' _
          (sym (append_assoc p (b' ' ∷ []) (q ++ (b' ' ∷ r))))
          (omega (arith, length-append p (b' ' ∷ []))) hq

-- A name and a password that a line can carry.
abbrev pub IsStorable : Str × Str → Type 0
IsStorable (k, v) = Lacks b' ' k × Lacks b'\n' k × Lacks b' ' v × Lacks b'\n' v

-- Every line, which has no newline, is refused with `invalid_argument` or gives a name and a password
-- that can be stored.
pub parse_line-cases :
    (line : Str)
    → Lacks b'\n' line
    → ((k v : Str) × (parse_line line ≡ ok (k, v)) × IsStorable (k, v))
      ⊎ (parse_line line ≡ throw invalid_argument)
parse_line-cases line h = elim (find-cases line b' ') [
  | inr (lacks, _) ↦ inl (line, line, parse_line_single line lacks, (lacks, h, lacks, h))
  | inl (p, s, e, hp, _) ↦ elim (find-cases s b' ') [
    | inr (lacks, _) ↦ inl (
      p,
      s,
      rw e (parse_line_pair p s hp lacks),
      (hp, All-left _ p (b' ' ∷ s) (rw e at h), lacks, (All-right _ p (b' ' ∷ s) (rw e at h)).1),
    )
    | inl (q, r, e', hq, _) ↦ inr (rw (e, e') (parse_line_blanks p q r hp hq))
  ]
]
