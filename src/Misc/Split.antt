-- ===== src/Misc/Split.antt =====
-- What `Split` returns on text made of lines.
use mathlib.Core.List.{append-ne-nil_of_right_ne-nil}
use tyfirc.Base.{
  ℕ, Bool, true, false, List, [], ◌∷◌, ◌++◌, ◌≡◌, ◌≢◌, refl, sym, ap, ◌∙◌, append_assoc, append-nil,
  All, All-append, Lacks, ◌==◌, eq→==, ne→==, ==→ne, Bool-cases, inl, inr, drop_last,
  drop_last-append, cons-ne-nil,
}
use tyfirc.Base.Text.{Str}
use tyfirc.Misc.{getlines, split}

-- `s` put behind the last line.
abbrev pub append_last : List Str → Str → List Str
append_last [] s = []
append_last (l ∷ []) s = (l ++ s) ∷ []
append_last (l ∷ k ∷ ls) s = l ∷ append_last (k ∷ ls) s

module _ (d : ℕ) where
  -- The characters of a token join it.
  getlines-append :
      (b : Bool) (token p rest : Str)
      → Lacks d p
      → p ≢ []
      → getlines d b token (p ++ rest) ≡ getlines d true (token ++ p) rest
  unfolding getlines
  getlines-append b token [] rest h ne = absurd (ne refl)
  getlines-append b token (c ∷ []) rest h ne = rw (ne→== c d h.0, getlines)
  getlines-append b token (c ∷ e ∷ p) rest h ne =
      rw (ne→== c d h.0, getlines)
        (getlines-append true (token ++ c ∷ []) (e ∷ p) rest h.1 (cons-ne-nil e p)
          ∙ rw (append_assoc token (c ∷ []) (e ∷ p)))

  -- A token that its delimiter ends is one line, also if it is empty.
  pub getlines_line :
      (p rest : Str)
      → Lacks d p
      → getlines d false [] (p ++ d ∷ rest) ≡ p ∷ getlines d false [] rest
  unfolding getlines
  getlines_line [] rest h = rw (eq→== d d refl, getlines)
  getlines_line (c ∷ p) rest h =
      getlines-append false [] (c ∷ p) (d ∷ rest) h (cons-ne-nil c p)
      ∙ rw (eq→== d d refl, getlines)

  -- The end of the text ends a token that is not empty.
  pub getlines_last : (p : Str) → Lacks d p → p ≢ [] → getlines d false [] p ≡ p ∷ []
  unfolding getlines
  getlines_last p h ne =
      ap (getlines d false []) (sym (append-nil p)) ∙ getlines-append false [] p [] h ne

  getlines-Lacks : (b : Bool) (token s : Str) → Lacks d token → All (Lacks d) (getlines d b token s)
  unfolding getlines
  getlines-Lacks true token [] h = (h, tt)
  getlines-Lacks false token [] h = tt
  getlines-Lacks b token (c ∷ s) h = elim (Bool-cases (c == d)) [
    | inl e ↦ rw (e, getlines) (h, getlines-Lacks false [] s tt)
    | inr e ↦
        rw (e, getlines)
          (getlines-Lacks true (token ++ c ∷ []) s
            (All-append _ token (c ∷ []) h (==→ne c d e, tt)))
  ]

  -- No line holds the delimiter.
  pub split-Lacks : (s : Str) → All (Lacks d) (split s d)
  unfolding split
  split-Lacks s = getlines-Lacks false [] s tt

  -- Each line with its delimiter behind it.
  abbrev pub terminated : List Str → Str
  terminated [] = []
  terminated (l ∷ ls) = l ++ d ∷ terminated ls

  -- Lines with the delimiter between them, and `s` behind the last one.
  pub split_joined :
      (l : Str) (ls : List Str) (s : Str)
      → All (Lacks d) (l ∷ ls)
      → Lacks d s
      → s ≢ []
      → split (drop_last (terminated (l ∷ ls)) ++ s) d ≡ append_last (l ∷ ls) s
  unfolding split
  split_joined l [] s (h, _) hs ne =
      rw (drop_last-append l (d ∷ []) (cons-ne-nil d []), append-nil l)
        (getlines_last (l ++ s) (All-append _ l s h hs) (append-ne-nil_of_right_ne-nil l ne))
  split_joined l (k ∷ ls) s (h, hk) hs ne =
      rw
        (
          drop_last-append l (d ∷ terminated (k ∷ ls)) (cons-ne-nil d (terminated (k ∷ ls))),
          drop_last-append (d ∷ []) (terminated (k ∷ ls))
              (append-ne-nil_of_right_ne-nil k (cons-ne-nil d (terminated ls))),
          append_assoc,
        )
        (getlines_line l _ h ∙ ap (◌∷◌ l) (split_joined k ls s hk hs ne))
