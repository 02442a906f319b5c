-- ===== src/ScMessage/Made.antt =====
-- The messages that `GetAuthScMessage` makes, and the answers of the server, as they are read.
use tyfirc.Base.{◌≡◌, ◌≢◌, refl, sym, ap, ◌∙◌, [], ◌∷◌, ◌++◌, Lacks, true, arith}
use tyfirc.Base.Text.{Str, codes, compare_str}
use tyfirc.Base.Map.{insert, lookup}
use tyfirc.Base.Result.{ok}
use tyfirc.ScMessage.Types.{ScMessageType, login, end_type, type_to_str}
use tyfirc.ScMessage.{
  ScMessage, separator, make, set_property, get_property, serialize, frame, deserialize,
}
use tyfirc.ScMessage.RoundTrip.{IsWellFormed, deserialize-frame}
use tyfirc.ScMessage.Make.{is_auth, get_auth_scmessage}

-- The message with a name and a password.
abbrev pub auth_message : ScMessageType → Str → Str → ScMessage
auth_message type username password = record {
  msg_type = type;
  properties = (codes "password", password) ∷ (codes "username", username) ∷ [];
}

pub get_auth-auth_message :
    (type : ScMessageType) (username password : Str)
    → is_auth type ≡ true
    → get_auth_scmessage type username password ≡ ok (auth_message type username password)
unfolding get_auth_scmessage set_property insert compare_str
get_auth-auth_message type username password h = rw h refl

is_auth-ne : (type : ScMessageType) → is_auth type ≡ true → type ≢ end_type
is_auth-ne type h e = cc (ap is_auth e)

-- It is well formed if neither the name nor the password has the separator.
auth_message-IsWellFormed :
    (type : ScMessageType) (username password : Str)
    → is_auth type ≡ true
    → Lacks separator username
    → Lacks separator password
    → IsWellFormed (auth_message type username password)
unfolding compare_str
auth_message-IsWellFormed type username password h hu hp = record {
  typed = is_auth-ne type h;
  ordered = (refl, tt);
  fields = ((omega arith, omega arith, hp), ((omega arith, omega arith, hu), tt));
}

pub deserialize-auth_message :
    (type : ScMessageType) (username password : Str)
    → is_auth type ≡ true
    → Lacks separator username
    → Lacks separator password
    → deserialize (frame (auth_message type username password))
      ≡ ok (auth_message type username password)
deserialize-auth_message type username password h hu hp =
    deserialize-frame _ (auth_message-IsWellFormed type username password h hu hp)

pub username-auth_message :
    (type : ScMessageType) (username password : Str)
    → get_property (auth_message type username password) (codes "username") ≡ ok username
unfolding get_property lookup compare_str
username-auth_message type username password = refl

pub password-auth_message :
    (type : ScMessageType) (username password : Str)
    → get_property (auth_message type username password) (codes "password") ≡ ok password
unfolding get_property lookup compare_str
password-auth_message type username password = refl

frame-make : (type : ScMessageType) → frame (make type) ≡ type_to_str type ++ 0 ∷ []
unfolding frame serialize type_to_str
frame-make login = refl
frame-make _ = refl

-- An answer is a type's name alone; it is read as a message of that type.
pub deserialize-answer :
    (type : ScMessageType)
    → type ≢ end_type
    → deserialize (type_to_str type ++ 0 ∷ []) ≡ ok (make type)
deserialize-answer type ne =
    ap deserialize (sym (frame-make type))
    ∙ deserialize-frame (make type) (record { typed = ne; ordered = tt; fields = tt })
