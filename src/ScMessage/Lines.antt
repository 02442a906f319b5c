-- ===== src/ScMessage/Lines.antt =====
-- The lines that `Serialize` writes, and how the loops of `Deserialize` read them.
use tyfirc.Base.{
  ℕ, ◌+◌, ◌≡◌, ◌≢◌, refl, sym, ap, ◌∙◌, List, [], ◌∷◌, ◌++◌, map, append_assoc, append-nil, arith,
  All, Lacks, length, length-append, get_or, drop_last, drop_last-append, cons-ne-nil,
}
use tyfirc.Base.Text.{Str, find-Lacks, substr}
use tyfirc.Base.Text.Parts.{substr_suffix, substr_middle, get_or-append_at}
use tyfirc.Base.Map.{Map, insert}
use tyfirc.Base.Map.Order.{insert_all}
use tyfirc.Base.Result.{ok, ◌>>=◌}
use tyfirc.Misc.Split.{terminated, append_last}
use tyfirc.ScMessage.Types.{ScMessageType, end_type, type_from_str, type_to_str}
use tyfirc.ScMessage.{
  ScMessage, separator, serialize, serialize_properties, parse_property, parse_properties,
  parse_lines, pop_last, set_property, set_type, make,
}

-- One property as a line: `<property>: <value>`.
abbrev pub render : Str × Str → Str
render (k, v) = k ++ b':' ∷ b' ' ∷ v

serialize_properties-terminated :
    (res : Str) (ps : Map Str)
    → serialize_properties res ps ≡ res ++ terminated separator (map render ps)
unfolding serialize_properties
serialize_properties-terminated res [] = sym (append-nil res)
serialize_properties-terminated res ((k, v) ∷ ps) =
    serialize_properties-terminated (res ++ (k ++ b':' ∷ b' ' ∷ (v ++ separator ∷ []))) ps
    ∙ simp append_assoc

pub serialize-terminated :
    (m : ScMessage)
    → serialize m
      ≡ drop_last (terminated separator (type_to_str m.msg_type ∷ map render m.properties))
unfolding serialize
serialize-terminated m = ap drop_last (
    serialize_properties-terminated (type_to_str m.msg_type ++ separator ∷ []) m.properties
    ∙ append_assoc (type_to_str m.msg_type) (separator ∷ []) _)

pub pop_last-cons :
    (l k : Str) (ls : List Str)
    → pop_last (l ∷ k ∷ ls) ≡ (pop_last (k ∷ ls) >>= λ rest. ok (l ∷ rest))
unfolding pop_last
pop_last-cons [] k ls = refl
pop_last-cons (x ∷ l) k ls = refl

append_last_cons :
    (l k : Str) (ls : List Str) (s : Str)
    → pop_last (l ∷ append_last (k ∷ ls) s)
      ≡ (pop_last (append_last (k ∷ ls) s) >>= λ rest. ok (l ∷ rest))
append_last_cons l k [] s = pop_last-cons l (k ++ s) []
append_last_cons l k (j ∷ ls) s = pop_last-cons l k (append_last (j ∷ ls) s)

-- `pop_back` takes away a character behind the last line.
pub pop_last-append_last :
    (c : ℕ) (l : Str) (ls : List Str) → pop_last (append_last (l ∷ ls) (c ∷ [])) ≡ ok (l ∷ ls)
pop_last-append_last c [] [] = unfold pop_last in refl
pop_last-append_last c (x ∷ l) [] =
    unfold pop_last in
    ap (λ t. ok (t ∷ []))
      (drop_last-append (x ∷ l) (c ∷ []) (cons-ne-nil c []) ∙ append-nil (x ∷ l))
pop_last-append_last c l (k ∷ ls) =
    append_last_cons l k ls (c ∷ []) ∙ rw (pop_last-append_last c k ls)

-- A rendered property is parsed to itself.
pub parse_property-render : (k v : Str) → Lacks b':' k → parse_property (render (k, v)) ≡ ok (k, v)
unfolding parse_property substr
parse_property-render k v h =
    rw (find-Lacks k (b' ' ∷ v) b':' h, parse_property, blank, property, value) refl
  where
    head : Str
    head = k ++ b':' ∷ []

    blank : get_or (render (k, v)) (length k + 1) 0 ≡ b' '
    blank =
        rw (← append_assoc k (b':' ∷ []) (b' ' ∷ v)) (
          get_or-append_at head v b' ' (length k + 1) 0
            (omega (arith, length-append k (b':' ∷ []))))

    property : substr (render (k, v)) 0 (length k) ≡ ok k
    property = substr_middle _ [] k (b':' ∷ b' ' ∷ v) 0 (length k) refl refl refl

    value : substr (render (k, v)) (length k + 2) (length (render (k, v))) ≡ ok v
    value =
        substr_suffix _ (k ++ b':' ∷ b' ' ∷ []) v (length k + 2) _
          (sym (append_assoc k (b':' ∷ b' ' ∷ []) v))
          (omega (arith, length-append k (b':' ∷ b' ' ∷ [])))
          (omega (arith, length-append k (b':' ∷ b' ' ∷ v)))

pub parse_properties-insert_all :
    (m : ScMessage) (ps : Map Str)
    → All (λ e. Lacks b':' e.0) ps
    → parse_properties m (map render ps) ≡ ok (record m { properties = insert_all ps m.properties })
unfolding parse_properties insert_all set_property
parse_properties-insert_all m [] h = refl
parse_properties-insert_all m ((k, v) ∷ ps) (hk, h) =
    rw (parse_property-render k v hk)
      (parse_properties-insert_all (record m { properties = insert k v m.properties }) ps h)

-- A line with the name of a message type starts a message of that type.
pub parse_lines_typed :
    (t : ScMessageType) (first : Str) (lines : List Str)
    → type_from_str first ≡ t
    → t ≢ end_type
    → parse_lines (first ∷ lines) ≡ parse_properties (make t) lines
unfolding parse_lines set_type
parse_lines_typed t first lines e ne = ground arith
