-- ===== src/ScMessage/Buffers.antt =====
-- What `Deserialize` makes of a buffer that has more than one message, or bytes behind it, as
-- `read_until` may leave it.
use tyfirc.Base.{
  ℕ, ◌≡◌, refl, sym, ap, ◌∙◌, Bool, true, false, List, [], ◌∷◌, ◌++◌, append_assoc, append-nil,
  arith, All, All-append, Lacks, ◌==◌, Bool-cases, inl, inr, drop_last, drop_last-append,
  cons-ne-nil,
}
use tyfirc.Base.Text.{Str, codes, compare_str}
use tyfirc.Base.Map.{insert}
use tyfirc.Base.Map.Order.{insert_all}
use tyfirc.Base.Result.{ok, ub}
use tyfirc.Misc.{split, getlines}
use tyfirc.Misc.Split.{terminated, split_joined}
use tyfirc.ScMessage.Types.{message, type_to_str, type_from_str-type_to_str}
use tyfirc.ScMessage.Lines.{
  render, serialize-terminated, pop_last-append_last, pop_last-cons, parse_lines_typed,
  parse_properties-insert_all,
}
use tyfirc.ScMessage.RoundTrip.{IsWellFormed, render-Lacks}
use tyfirc.ScMessage.{ScMessage, separator, make, serialize, frame, deserialize, pop_last}

-- A chat message with its text, as `GetMessageScMessage` makes it.
abbrev pub chat : Str → ScMessage
chat text = record { msg_type = message; properties = (codes "message[0]", text) ∷ [] }

pub chat-IsWellFormed : (text : Str) → Lacks separator text → IsWellFormed (chat text)
chat-IsWellFormed text h = record {
  typed = λ e. cc;
  ordered = tt;
  fields = ((omega arith, omega arith, h), tt);
}

-- The buffer with two of them, as lines.
abbrev two_lines : Str → Str → List Str
two_lines a b =
    type_to_str message
    ∷ render (codes "message[0]", a ++ (0 ∷ type_to_str message))
    ∷ render (codes "message[0]", b)
    ∷ []

serialize-chat :
    (a : Str)
    → serialize (chat a) ≡ type_to_str message ++ separator ∷ render (codes "message[0]", a)
unfolding type_to_str
serialize-chat a =
    serialize-terminated (chat a)
    ∙ drop_last-append (type_to_str message ++ separator ∷ render (codes "message[0]", a))
        (separator ∷ []) (cons-ne-nil separator [])
    ∙ append-nil _

drop_last-two :
    (c : ℕ) (w r : Str) (k : ℕ) → drop_last (c ∷ (w ++ k ∷ (r ++ k ∷ []))) ≡ c ∷ (w ++ k ∷ r)
drop_last-two c w r k =
    ap (λ t. drop_last (c ∷ t)) (sym (append_assoc w (k ∷ r) (k ∷ [])))
    ∙ drop_last-append (c ∷ (w ++ k ∷ r)) (k ∷ []) (cons-ne-nil k [])
    ∙ append-nil _

-- The rest of the second frame hangs on the text of the first.
two_frames :
    (a b : Str)
    → frame (chat a) ++ frame (chat b) ≡ drop_last (terminated separator (two_lines a b)) ++ 0 ∷ []
unfolding frame type_to_str
two_frames a b =
    rw (serialize-chat a, serialize-chat b)
      (rw
        (drop_last-two 32 (a ++ 0 ∷ type_to_str message) (render (codes "message[0]", b)) separator)
        (simp append_assoc))

two_lines-Lacks :
    (a b : Str) → Lacks separator a → Lacks separator b → All (Lacks separator) (two_lines a b)
unfolding type_to_str
two_lines-Lacks a b ha hb = (
  omega arith,
  (
    render-Lacks (codes "message[0]") (a ++ 0 ∷ type_to_str message)
        (omega arith, omega arith, All-append _ a (0 ∷ type_to_str message) ha (omega arith)),
    (render-Lacks (codes "message[0]") b (omega arith, omega arith, hb), tt),
  ),
)

-- The second value of a name replaces the first.
only_second :
    (a b : Str)
    → ok (record {
      msg_type = message;
      properties = insert_all ((codes "message[0]", a) ∷ (codes "message[0]", b) ∷ []) [];
    })
      ≡ ok (chat b)
unfolding insert_all insert compare_str
only_second a b = refl

-- If the frames of two chat messages, whose texts have no separator, come into a buffer together,
-- `Deserialize` gives the second message alone.
pub deserialize-two_frames :
    (a b : Str)
    → Lacks separator a
    → Lacks separator b
    → deserialize (frame (chat a) ++ frame (chat b)) ≡ ok (chat b)
unfolding deserialize
deserialize-two_frames a b ha hb =
    rw
      (
        two_frames a b,
        split_joined separator (type_to_str message)
            (render (codes "message[0]", a ++ (0 ∷ type_to_str message))
              ∷ render (codes "message[0]", b)
              ∷ [])
            (0 ∷ []) (two_lines-Lacks a b ha hb) (unfold type_to_str in omega arith)
            (cons-ne-nil 0 []),
        pop_last-append_last,
      )
      (parse_lines_typed message (type_to_str message) _ (type_from_str-type_to_str message)
          (λ e. cc)
        ∙ parse_properties-insert_all (make message)
            ((codes "message[0]", a ++ 0 ∷ type_to_str message) ∷ (codes "message[0]", b) ∷ [])
            (omega arith, (omega arith, tt))
        ∙ only_second (a ++ 0 ∷ type_to_str message) b)

-- The lines of a text with two separators at its end: the last of them is empty.
last_empty :
    (b : Bool) (token s : Str)
    → (l : Str) × (ls : List Str) × (getlines separator b token (s ++ separator ∷ separator ∷ [])
        ≡ l ∷ ls)
      × (pop_last (l ∷ ls) ≡ ub)
unfolding getlines pop_last
last_empty b token [] = (token, [] ∷ [], refl, pop_last-cons token [] [])
last_empty b token (c ∷ s) = elim (Bool-cases (c == separator)) [
  | inl e ↦
      let (l, ls, lines, undefined) = last_empty false [] s in
      (token, l ∷ ls, rw (e, getlines, lines) refl, pop_last-cons token l ls ∙ rw undefined refl)
  | inr e ↦
      let (l, ls, lines, undefined) = last_empty true (token ++ c ∷ []) s in
      (l, ls, rw (e, getlines) lines, undefined)
]

-- On a buffer that ends in two separators, whatever stands before them, `Deserialize` takes a
-- character away from an empty string.
pub deserialize-ub : (s : Str) → deserialize (s ++ separator ∷ separator ∷ []) ≡ ub
unfolding deserialize split
deserialize-ub s =
    let (l, ls, lines, undefined) = last_empty false [] s in rw (lines, undefined) refl
