-- ===== src/ScMessage.antt =====
-- tyfirc/tyfirc-scmessage.h and tyfirc/tyfirc-scmessage.cpp: the messages between server and
-- client, and their text form.
pub mod Types
pub mod Lines
pub mod RoundTrip
pub mod Sound
pub mod Make
pub mod Made
pub mod Buffers
pub mod Clean
pub mod Chats
use tyfirc.Base.{
  ℕ, zero, suc, ◌+◌, Bool, true, false, not, ◌||◌, ◌&&◌, Option, none, some, List, [], ◌∷◌, ◌++◌,
  ◌==◌, if◌then◌else◌, get_or, drop_last, length,
}
use tyfirc.Base.Text.{Str, codes, find, substr}
use tyfirc.Base.Map.{Map, insert, at_key}
use tyfirc.Base.Result.{Result, ok, throw, ub, ◌>>=◌, invalid_argument}
use tyfirc.Misc.{split}
use Types.{ScMessageType, login, end_type, type_to_str, type_from_str}

abbrev pub separator : ℕ
separator = 31

-- `class ScMessage`.
pub record ScMessage : Type 0 where
  pub msg_type : ScMessageType
  pub properties : Map Str

abbrev pub make : ScMessageType → ScMessage
make type = record { msg_type = type; properties = [] }

-- `GetProperty`: `map::at` throws `out_of_range` if the property is missing.
unfoldable pub get_property : ScMessage → Str → Result Str
get_property m prop = at_key m.properties prop

unfoldable pub set_property : ScMessage → Str → Str → ScMessage
set_property m property value = record m { properties = insert property value m.properties }

unfoldable pub set_type : ScMessage → ScMessageType → ScMessage
set_type m type = record m { msg_type = type }

-- The loop of `Serialize`.
unfoldable pub serialize_properties : Str → Map Str → Str
serialize_properties res [] = res
serialize_properties res ((k, v) ∷ ps) =
    serialize_properties (res ++ (k ++ b':' ∷ b' ' ∷ (v ++ separator ∷ []))) ps

unfoldable pub serialize : ScMessage → Str
unfolding serialize_properties
serialize m =
    drop_last (serialize_properties (type_to_str m.msg_type ++ separator ∷ []) m.properties)

-- `line[i]`: the position just past the last character reads as the terminating zero.
abbrev char_at : Str → ℕ → ℕ
char_at line i = get_or line i 0

-- `ParseProperty`: the property and the value.
unfoldable pub parse_property : Str → Result (Str × Str)
parse_property line = elim (find line b':') [
  | none ↦ throw invalid_argument
  | some col_ind ↦ if not (char_at line (col_ind + 1) == b' ') then throw invalid_argument else (do
    property ← substr line 0 col_ind
    value ← substr line (col_ind + 2) (length line)
    ok (property, value))
]

-- `lines[lines.size() - 1].pop_back()`: undefined if there is no line, or if the last is empty.
unfoldable pub pop_last : List Str → Result (List Str)
pop_last [] = ub
pop_last ([] ∷ []) = ub
pop_last ((c ∷ l) ∷ []) = ok (drop_last (c ∷ l) ∷ [])
pop_last (l ∷ k ∷ ls) = do rest ← pop_last (k ∷ ls); ok (l ∷ rest)

-- The loop of `Deserialize` over the lines behind the first.
unfoldable pub parse_properties : ScMessage → List Str → Result ScMessage
parse_properties res [] = ok res
parse_properties res (line ∷ lines) = do
  (property, value) ← parse_property line
  parse_properties (set_property res property value) lines

-- `Deserialize` behind `pop_back`.
unfoldable pub parse_lines : List Str → Result ScMessage
parse_lines [] = ub
parse_lines (first ∷ lines) = elim (type_from_str first) [
  | end_type ↦ throw invalid_argument
  | msg_type ↦ parse_properties (set_type (make login) msg_type) lines
]

unfoldable pub deserialize : Str → Result ScMessage
deserialize sc_msg = do lines ← pop_last (split sc_msg separator); parse_lines lines

-- What `WriteScMessage` puts on the wire: the text and the zero behind it.
unfoldable pub frame : ScMessage → Str
frame m = serialize m ++ 0 ∷ []
