-- ===== src/Message/Parts.antt =====
-- How `Deserialize` takes a written message apart: tyfirc/tyfirc-msgpack.cpp.
use tyfirc.Base.{
  ℕ, suc, ◌+◌, ◌-◌, ◌≡◌, refl, sym, ap, ◌∙◌, [], ◌∷◌, ◌++◌, some, arith, append_assoc, Lacks,
  length, length-append,
}
use tyfirc.Base.Text.{Str, find, find_from, find-Lacks, substr}
use tyfirc.Base.Text.Parts.{substr_middle, substr_suffix, find_from_lem}
use tyfirc.Base.Result.{ok, throw, invalid_argument}
use tyfirc.Time.{Clock, time_point_from_str}
use tyfirc.Time.RoundTrip.{time_format}
use tyfirc.Message.{deserialize}

-- The three parts of a written message.
abbrev pub message_text : Str → Str → Str → Str
message_text name date text = name ++ (b'\n' ∷ (date ++ (b'\n' ∷ text)))

module _ (name date text : Str) (hn : Lacks b'\n' name) (hd : Lacks b'\n' date) where
  abbrev src : Str
  src = message_text name date text

  regroup : src ≡ (name ++ b'\n' ∷ []) ++ (date ++ (b'\n' ∷ text))
  regroup = sym (append_assoc name (b'\n' ∷ []) (date ++ (b'\n' ∷ text)))

  abbrev head : Str
  head = (name ++ b'\n' ∷ []) ++ (date ++ b'\n' ∷ [])

  length-head : length head ≡ suc (length name) + length date + 1
  length-head = omega (
    arith,
    length-append (name ++ b'\n' ∷ []) (date ++ b'\n' ∷ []),
    length-append name (b'\n' ∷ []),
    length-append date (b'\n' ∷ []),
  )

  behind : src ≡ head ++ text
  behind =
      regroup
      ∙ ap (◌++◌ (name ++ b'\n' ∷ [])) (sym (append_assoc date (b'\n' ∷ []) text))
      ∙ sym (append_assoc (name ++ b'\n' ∷ []) (date ++ b'\n' ∷ []) text)

  first : find src b'\n' ≡ some (length name)
  first = find-Lacks name (date ++ (b'\n' ∷ text)) b'\n' hn

  second : find_from src b'\n' (suc (length name)) ≡ some (suc (length name) + length date)
  second =
      find_from_lem src (name ++ b'\n' ∷ []) date text b'\n' _ regroup
        (omega (arith, length-append name (b'\n' ∷ []))) hd

  front : substr src 0 (length name) ≡ ok name
  front = substr_middle src [] name _ 0 _ refl refl refl

  middle :
      substr src (length name + 1) (suc (length name) + length date - length name - 1) ≡ ok date
  middle =
      substr_middle src (name ++ b'\n' ∷ []) date (b'\n' ∷ text) _ _ regroup
        (omega (arith, length-append name (b'\n' ∷ []))) (omega arith)

  back :
      substr src
        (suc (length name) + length date + 1)
        (length src - (suc (length name) + length date) - 1)
      ≡ ok text
  back =
      substr_suffix src head text _ _ behind (sym length-head)
        (omega (arith, length-head, ap length behind, length-append head text))

  -- At its first two newlines.
  pub deserialize_parts :
      (c : Clock) (time : ℕ)
      → time_point_from_str c date time_format ≡ ok time
      → deserialize c (message_text name date text)
        ≡ ok (record { username = name; text = text; time = time })
  unfolding deserialize
  deserialize_parts c time parsed =
      rw (first, second, deserialize, front, middle, parsed, back) refl

  -- A date that is refused makes the message one that is.
  pub deserialize-refused :
      (c : Clock)
      → time_point_from_str c date time_format ≡ throw invalid_argument
      → deserialize c (message_text name date text) ≡ throw invalid_argument
  unfolding deserialize
  deserialize-refused c refused = rw (first, second, deserialize, front, middle, refused) refl
