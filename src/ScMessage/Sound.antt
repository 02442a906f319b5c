-- ===== src/ScMessage/Sound.antt =====
-- What `Deserialize` returns on any text that a zero byte ends.
use tyfirc.Base.{
  ◌+◌, ◌≡◌, ◌≢◌, ◌⊎◌, inl, inr, refl, ap, ◌∙◌, List, [], ◌∷◌, ◌++◌, arith, All, All-append, Lacks,
  Bool, false, All-left, All-right, ==→ne, some, true, ◌==◌, Bool-cases, ==→eq, length, get_or,
}
use tyfirc.Base.Text.{Str, find}
use tyfirc.Base.Text.Parts.{find-cases, get_or-append_next}
use tyfirc.Base.Map.{Map, insert}
use tyfirc.Base.Map.Order.{insert-IsOrdered}
use tyfirc.Base.Result.{ok, throw, invalid_argument}
use tyfirc.Misc.{split, getlines}
use tyfirc.ScMessage.Types.{ScMessageType, end_type, type_from_str}
use tyfirc.ScMessage.Lines.{
  render, parse_property-render, parse_lines_typed, pop_last-append_last, pop_last-cons,
}
use tyfirc.ScMessage.RoundTrip.{IsField, IsWellFormed, deserialize-frame}
use tyfirc.ScMessage.{
  ScMessage, separator, make, frame, parse_property, parse_properties, parse_lines, pop_last,
  set_property, deserialize,
}

parse_property_refuses :
    (line k q : Str)
    → line ≡ k ++ b':' ∷ q
    → find line b':' ≡ some (length k)
    → get_or q 0 0 ≢ b' '
    → parse_property line ≡ throw invalid_argument
unfolding parse_property
parse_property_refuses line k q e found other =
    let next : get_or line (length k + 1) 0 ≡ get_or q 0 0 = rw e (get_or-append_next k q b':' 0) in
    ground arith

-- A line is either of the form `<property>: <value>`, the property without a colon, and gives these
-- two, or is refused with `invalid_argument`.
pub parse_property-cases :
    (line : Str)
    → ((k v : Str) × (line ≡ render (k, v)) × Lacks b':' k × (parse_property line ≡ ok (k, v)))
      ⊎ (parse_property line ≡ throw invalid_argument)
parse_property-cases line = elim (find-cases line b':') [
  | inr (_, absent) ↦ inr (unfold parse_property in rw (absent, parse_property))
  | inl (k, [], e, lacks, found) ↦
      inr (parse_property_refuses line k [] e found (λ z. absurd (omega arith)))
  | inl (k, c ∷ v, e, lacks, found) ↦ elim (Bool-cases (c == b' ')) [
    | inl blank ↦
        let shape : line ≡ render (k, v) = e ∙ ap (λ y. k ++ b':' ∷ y ∷ v) (==→eq c b' ' blank) in
        inl (k, v, shape, lacks, rw shape (parse_property-render k v lacks))
    | inr other ↦ inr (parse_property_refuses line k (c ∷ v) e found (==→ne c b' ' other))
  ]
]

insert-IsField :
    (k v : Str) (ps : Map Str) → IsField (k, v) → All IsField ps → All IsField (insert k v ps)
unfolding insert
insert-IsField k v [] h hs = (h, tt)
insert-IsField k v ((j, w) ∷ ps) h hs = ground (arith, insert-IsField k v ps h hs.1)

parse_property-IsField :
    (k v : Str) → Lacks b':' k → Lacks separator (render (k, v)) → IsField (k, v)
parse_property-IsField k v colon h =
    (colon, All-left _ k (b':' ∷ b' ' ∷ v) h, (All-right _ k (b':' ∷ b' ' ∷ v) h).1.1)

-- The loop of `Deserialize` throws `invalid_argument` or returns a message in good form.
parse_properties-cases :
    (m : ScMessage) (lines : List Str)
    → IsWellFormed m
    → All (Lacks separator) lines
    → ((r : ScMessage) × (parse_properties m lines ≡ ok r) × IsWellFormed r)
      ⊎ (parse_properties m lines ≡ throw invalid_argument)
unfolding parse_properties set_property
parse_properties-cases m [] w h = inl (m, refl, w)
parse_properties-cases m (line ∷ lines) w (h, hs) = elim (parse_property-cases line) [
  | inr fails ↦ inr (rw fails)
  | inl (k, v, e, lacks, found) ↦ rw found (
      parse_properties-cases (record m { properties = insert k v m.properties }) lines
        (record {
          typed = w.typed;
          ordered = insert-IsOrdered k v m.properties w.ordered;
          fields =
              insert-IsField k v m.properties (parse_property-IsField k v lacks (rw e at h))
                w.fields;
        })
        hs)
]

pub parse_lines-cases :
    (first : Str) (lines : List Str)
    → All (Lacks separator) lines
    → ((r : ScMessage) × (parse_lines (first ∷ lines) ≡ ok r) × IsWellFormed r)
      ⊎ (parse_lines (first ∷ lines) ≡ throw invalid_argument)
parse_lines-cases first lines h = go (type_from_str first) refl
  where
    typed :
        (t : ScMessageType)
        → type_from_str first ≡ t
        → t ≢ end_type
        → ((r : ScMessage) × (parse_lines (first ∷ lines) ≡ ok r) × IsWellFormed r)
          ⊎ (parse_lines (first ∷ lines) ≡ throw invalid_argument)
    typed t e ne =
        rw (parse_lines_typed t first lines e ne) (
          parse_properties-cases (make t) lines (record { typed = ne; ordered = tt; fields = tt })
            h)

    go :
        (t : ScMessageType)
        → type_from_str first ≡ t
        → ((r : ScMessage) × (parse_lines (first ∷ lines) ≡ ok r) × IsWellFormed r)
          ⊎ (parse_lines (first ∷ lines) ≡ throw invalid_argument)
    go end_type e = inr (unfold parse_lines in rw (e, parse_lines))
    go t e = typed t e (λ q. cc)

pop_last-ok :
    (l : Str) (ls rest : List Str) → pop_last ls ≡ ok rest → pop_last (l ∷ ls) ≡ ok (l ∷ rest)
pop_last-ok l [] rest h = unfold pop_last in cc h
pop_last-ok l (k ∷ ls) rest h = pop_last-cons l k ls ∙ rw h

-- A zero byte at the end leaves `pop_back` something to take away.
pop_last-getlines :
    (b : Bool) (token s : Str)
    → Lacks separator token
    → (first : Str) × (rest : List Str) × (pop_last (getlines separator b token (s ++ 0 ∷ []))
        ≡ ok (first ∷ rest))
      × All (Lacks separator) (first ∷ rest)
unfolding getlines
pop_last-getlines b token [] h = (token, [], pop_last-append_last 0 token [], (h, tt))
pop_last-getlines b token (c ∷ s) h = elim (Bool-cases (c == separator)) [
  | inl e ↦
      let (first, rest, popped, lacks) = pop_last-getlines false [] s tt in
      (token, first ∷ rest, rw (e, getlines) (pop_last-ok token _ _ popped), (h, lacks))
  | inr e ↦
      let (first, rest, popped, lacks) =
        pop_last-getlines true (token ++ c ∷ []) s
          (All-append _ token (c ∷ []) h (==→ne c separator e, tt)) in
      (first, rest, rw (e, getlines) popped, lacks)
]

-- On a text that a zero byte ends, `Deserialize` returns a message in good form or throws
-- `invalid_argument`; it never reads out of bounds and throws nothing else.
pub deserialize_total :
    (s : Str)
    → ((m : ScMessage) × (deserialize (s ++ 0 ∷ []) ≡ ok m) × IsWellFormed m)
      ⊎ (deserialize (s ++ 0 ∷ []) ≡ throw invalid_argument)
unfolding deserialize split
deserialize_total s =
    let (first, rest, popped, lacks) = pop_last-getlines false [] s tt in
    rw popped (parse_lines-cases first rest lacks.1)

-- Whatever was read from a text that a zero byte ends can be sent again and is read as the same
-- message.
pub deserialize-frame_of_read :
    (s : Str) (m : ScMessage) → deserialize (s ++ 0 ∷ []) ≡ ok m → deserialize (frame m) ≡ ok m
deserialize-frame_of_read s m h = elim (deserialize_total s) [
  | inl (r, e, w) ↦ deserialize-frame m (rw (same r e) w)
  | inr e ↦ cc
]
  where
    same : (r : ScMessage) → deserialize (s ++ 0 ∷ []) ≡ ok r → m ≡ r
    same r e = cc
