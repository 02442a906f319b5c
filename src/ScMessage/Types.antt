-- ===== src/ScMessage/Types.antt =====
-- `ScMessageType` and its names.
use tyfirc.Base.{ℕ, zero, suc, ◌≡◌, refl, List, [], ◌∷◌, ◌==◌, Bool, if◌then◌else◌, get_or}
use tyfirc.Base.Text.{Str, codes, c_str, str_eq, compare_str}

-- `end_type` is `END`, which is no message type.
pub data ScMessageType : Type 0 where
  login login_success login_failure : ScMessageType
  register register_success register_failure : ScMessageType
  message format_failure end_type : ScMessageType

-- `sc_types_strings`.
abbrev pub sc_types_strings : List Str
sc_types_strings =
    codes "LOGIN"
    ∷ codes "LOGIN_SUCCESS"
    ∷ codes "LOGIN_FAILURE"
    ∷ codes "REGISTER"
    ∷ codes "REGISTER_SUCCESS"
    ∷ codes "REGISTER_FAILURE"
    ∷ codes "MESSAGE"
    ∷ codes "FORMAT_FAILURE"
    ∷ codes "END"
    ∷ []

-- `static_cast<int>(type)`.
unfoldable pub to_index : ScMessageType → ℕ
to_index login = 0
to_index login_success = 1
to_index login_failure = 2
to_index register = 3
to_index register_success = 4
to_index register_failure = 5
to_index message = 6
to_index format_failure = 7
to_index end_type = 8

-- `==` on types.
abbrev pub type_is : ScMessageType → ScMessageType → Bool
type_is a b = to_index a == to_index b

-- `static_cast<ScMessageType>(ind)`, of the indices 0 to 8 that `ScMessageTypeFromStr` computes.
unfoldable pub of_index : ℕ → ScMessageType
of_index i =
    if i == 0
    then login
    else if i == 1
    then login_success
    else if i == 2
    then login_failure
    else if i == 3
    then register
    else if i == 4
    then register_success
    else if i == 5
    then register_failure
    else if i == 6
    then message
    else if i == 7
    then format_failure
    else end_type

-- `sc_types_size`.
abbrev pub sc_types_size : ℕ
sc_types_size = to_index end_type

unfoldable pub type_to_str : ScMessageType → Str
unfolding to_index
type_to_str type = get_or sc_types_strings (to_index type) []

-- `std::find_if` over the first `n` entries: the index of the first that `strcmp` finds equal, or
-- the number of entries. A C string ends at its first zero byte.
unfoldable pub find_type : Str → List Str → ℕ → ℕ
find_type msg [] n = 0
find_type msg (cur ∷ rest) zero = 0
find_type msg (cur ∷ rest) (suc n) =
    if str_eq (c_str msg) cur then 0 else suc (find_type msg rest n)

unfoldable pub type_from_str : Str → ScMessageType
unfolding find_type of_index to_index
type_from_str msg = of_index (find_type msg sc_types_strings sc_types_size)

-- Each name is read back; `END` too, which `find_if` does not look at.
pub type_from_str-type_to_str : (t : ScMessageType) → type_from_str (type_to_str t) ≡ t
unfolding type_from_str type_to_str c_str compare_str
type_from_str-type_to_str login = refl
type_from_str-type_to_str _ = refl
