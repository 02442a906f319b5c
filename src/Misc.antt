-- ===== src/Misc.antt =====
-- tyfirc/tyfirc-misc.h and tyfirc/tyfirc-misc.cpp: connection states and `Split`.
pub mod Split
use tyfirc.Base.{ℕ, Bool, true, false, List, [], ◌∷◌, ◌++◌, ◌==◌, if◌then◌else◌}
use tyfirc.Base.Text.{Str}

pub data ConnectionState : Type 0 where
  not_connected connected logged_in : ConnectionState

-- The loop of `std::getline` calls. The flag tells whether the call under way has taken a
-- character, so that it succeeds at the end of the stream.
unfoldable pub getlines : ℕ → Bool → Str → Str → List Str
getlines d extracted token [] = if extracted then token ∷ [] else []
getlines d extracted token (c ∷ s) = elim (c == d) [
  | true ↦ token ∷ getlines d false [] s
  | false ↦ getlines d true (token ++ c ∷ []) s
]

unfoldable pub split : Str → ℕ → List Str
unfolding getlines
split src delimeter = getlines delimeter false [] src
