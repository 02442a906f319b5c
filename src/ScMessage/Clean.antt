-- ===== src/ScMessage/Clean.antt =====
-- Where the separator cannot stand: tyfirc/tyfirc-scmessage.cpp, with the text forms of a time and of
-- a message in tyfirc/tyfirc-misc.cpp and tyfirc/tyfirc-msgpack.cpp.
use tyfirc.Base.{
  ℕ, Bool, true, false, ◌≡◌, List, [], ◌∷◌, ◌++◌, All, All-append, Lacks, ◌==◌, Bool-cases, inl,
  inr, ==→ne, drop_last, some, none, Option,
}
use tyfirc.Base.Text.{Str, str_eq}
use tyfirc.Base.Map.{Map, lookup}
use tyfirc.Base.Result.{ok, throw, out_of_range, >>=-eq-ok}
use tyfirc.Misc.{split, getlines}
use tyfirc.ScMessage.{ScMessage, separator, pop_last, parse_lines, get_property, deserialize}
use tyfirc.ScMessage.RoundTrip.{IsField, IsWellFormed}
use tyfirc.ScMessage.Sound.{parse_lines-cases}

getlines-Lacks :
    (b : Bool) (token s : Str)
    → Lacks separator token
    → All (Lacks separator) (getlines separator b token s)
unfolding getlines
getlines-Lacks true token [] h = (h, tt)
getlines-Lacks false token [] h = tt
getlines-Lacks b token (c ∷ s) h = elim (Bool-cases (c == separator)) [
  | inl e ↦ rw (e, getlines) (h, getlines-Lacks false [] s tt)
  | inr e ↦
      rw (e, getlines)
        (getlines-Lacks true (token ++ c ∷ []) s
          (All-append _ token (c ∷ []) h (==→ne c separator e, tt)))
]

pub drop_last-Lacks : (d : ℕ) (s : Str) → Lacks d s → Lacks d (drop_last s)
drop_last-Lacks d [] h = tt
drop_last-Lacks d (c ∷ []) h = tt
drop_last-Lacks d (c ∷ k ∷ s) (h, hs) = (h, drop_last-Lacks d (k ∷ s) hs)

pop_last-Lacks :
    (lines rest : List Str)
    → pop_last lines ≡ ok rest
    → All (Lacks separator) lines
    → All (Lacks separator) rest
unfolding pop_last
pop_last-Lacks [] rest e h = cc
pop_last-Lacks ([] ∷ []) rest e h = cc
pop_last-Lacks ((c ∷ l) ∷ []) rest e (h, hs) =
    let same : drop_last (c ∷ l) ∷ [] ≡ rest = cc in
    rw (← same) (drop_last-Lacks separator (c ∷ l) h, tt)
pop_last-Lacks (l ∷ k ∷ ls) rest e (h, hs) =
    let (popped, e1, e2) = >>=-eq-ok (pop_last (k ∷ ls)) _ e in
    let same : l ∷ popped ≡ rest = cc in rw (← same) (h, pop_last-Lacks (k ∷ ls) popped e1 hs)

-- Whatever `Deserialize` returns is in good form.
pub deserialize-IsWellFormed : (s : Str) (m : ScMessage) → deserialize s ≡ ok m → IsWellFormed m
unfolding deserialize split
deserialize-IsWellFormed s m e =
    let (lines, popped, parsed) = >>=-eq-ok (pop_last (split s separator)) _ e in
    read lines (pop_last-Lacks (split s separator) lines popped (getlines-Lacks false [] s tt))
      parsed
  where
    read :
        (lines : List Str) → All (Lacks separator) lines → parse_lines lines ≡ ok m → IsWellFormed m
    read [] h e = unfold parse_lines in cc e
    read (first ∷ lines) (_, h) e = elim (parse_lines-cases first lines h) [
      | inl (r, found, w) ↦ let same : r ≡ m = cc in rw (← same) w
      | inr refuses ↦ cc
    ]

lookup-Lacks :
    (k v : Str) (ps : Map Str) → lookup k ps ≡ some v → All IsField ps → Lacks separator v
unfolding lookup
lookup-Lacks k v [] e h = cc
lookup-Lacks k v ((j, w) ∷ ps) e (h, hs) = elim (Bool-cases (str_eq k j)) [
  | inl at ↦ let same : w ≡ v = cc (rw (at, lookup) at e) in rw (← same) h.2
  | inr at ↦ lookup-Lacks k v ps (rw (at, lookup) at e) hs
]

-- The values of its properties have no separator.
pub property-Lacks :
    (m : ScMessage) (k v : Str) → get_property m k ≡ ok v → IsWellFormed m → Lacks separator v
unfolding get_property
property-Lacks m k v e w = lookup-Lacks k v m.properties (found (lookup k m.properties) e) w.fields
  where
    found :
        (o : Option Str)
        → (elim o [ none ↦ throw out_of_range | some v ↦ ok v ]) ≡ ok v
        → o ≡ some v
    found none e = cc
    found (some w) e = cc
