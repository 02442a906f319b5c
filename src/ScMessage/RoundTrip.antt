-- ===== src/ScMessage/RoundTrip.antt =====
-- A message that is written and read back, and what a message that was read looks like.
use tyfirc.Base.{◌≡◌, ◌≢◌, ap, ◌∙◌, [], ◌∷◌, ◌++◌, map, arith, All, All-append, Lacks, cons-ne-nil}
use tyfirc.Base.Text.{Str}
use tyfirc.Base.Map.{Map}
use tyfirc.Base.Map.Order.{IsOrdered, insert_all-IsOrdered}
use tyfirc.Base.Result.{ok}
use tyfirc.Misc.{split}
use tyfirc.Misc.Split.{split_joined, append_last}
use tyfirc.ScMessage.Types.{ScMessageType, login, end_type, type_to_str, type_from_str-type_to_str}
use tyfirc.ScMessage.Lines.{
  render, serialize-terminated, pop_last-append_last, parse_properties-insert_all,
  parse_lines_typed,
}
use tyfirc.ScMessage.{ScMessage, separator, make, frame, deserialize}

-- A property that the text form can carry.
abbrev pub IsField : Str × Str → Type 0
IsField (k, v) = Lacks b':' k × Lacks separator k × Lacks separator v

pub record IsWellFormed (m : ScMessage) : Type 0 where
  pub typed : m.msg_type ≢ end_type
  pub ordered : IsOrdered m.properties
  pub fields : All IsField m.properties

type_to_str-Lacks : (t : ScMessageType) → Lacks separator (type_to_str t)
unfolding type_to_str
type_to_str-Lacks login = omega arith
type_to_str-Lacks _ = omega arith

pub render-Lacks : (k v : Str) → IsField (k, v) → Lacks separator (render (k, v))
render-Lacks k v (_, hk, hv) = All-append _ k (b':' ∷ b' ' ∷ v) hk (omega arith, (omega arith, hv))

map-render-Lacks : (ps : Map Str) → All IsField ps → All (Lacks separator) (map render ps)
map-render-Lacks [] h = tt
map-render-Lacks ((k, v) ∷ ps) (h, hs) = (render-Lacks k v h, map-render-Lacks ps hs)

fields-Lacks : (ps : Map Str) → All IsField ps → All (λ e. Lacks b':' e.0) ps
fields-Lacks [] h = tt
fields-Lacks ((k, v) ∷ ps) (h, hs) = (h.0, fields-Lacks ps hs)

split-frame :
    (m : ScMessage)
    → All IsField m.properties
    → split (frame m) separator
      ≡ append_last (type_to_str m.msg_type ∷ map render m.properties) (0 ∷ [])
unfolding frame
split-frame m h =
    ap (λ t. split (t ++ 0 ∷ []) separator) (serialize-terminated m)
    ∙ split_joined separator (type_to_str m.msg_type) (map render m.properties) (0 ∷ [])
        (type_to_str-Lacks m.msg_type, map-render-Lacks m.properties h) (omega arith)
        (cons-ne-nil 0 [])

-- `Deserialize` reads back what `WriteScMessage` sends, for every message of a proper type whose
-- names hold no colon and no separator and whose values hold no separator.
pub deserialize-frame : (m : ScMessage) → IsWellFormed m → deserialize (frame m) ≡ ok m
unfolding deserialize
deserialize-frame m w =
    rw (split-frame m w.fields, pop_last-append_last)
      (parse_lines_typed m.msg_type _ _ (type_from_str-type_to_str m.msg_type) w.typed
        ∙ parse_properties-insert_all (make m.msg_type) m.properties
            (fields-Lacks m.properties w.fields)
        ∙ ap (λ ps. ok (record { msg_type = m.msg_type; properties = ps }))
            (insert_all-IsOrdered m.properties w.ordered))
