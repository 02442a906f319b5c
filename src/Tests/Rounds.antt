-- ===== src/Tests/Rounds.antt =====
-- The writing thread of the older server: nmake/tyfirc-server/tyfirc-ircserverapp.cpp.
use tyfirc.Base.{ℕ, Bool, not, inl, inr, ◌≡◌, refl, [], ◌∷◌, ◌==◌, if◌then◌else◌, arith}
use tyfirc.Misc.{ConnectionState, not_connected, logged_in}
use tyfirc.Older.{finished, write_round}
use tyfirc.Older.Ending.{logged, write_round-finished}

-- Session 1 has left and can no longer be written to.
abbrev states : ℕ → ConnectionState
states id = if id == 1 then not_connected else logged_in

abbrev reachable : ℕ → Bool
reachable id = not (id == 1)

write_round-finished_example :
    write_round states reachable 4 (record { before = []; from = 0 ∷ 1 ∷ 2 ∷ [] }) []
    ≡ finished
        (record { before = logged states (0 ∷ 1 ∷ 2 ∷ []); from = [] })
        (logged states (0 ∷ 1 ∷ 2 ∷ []))
write_round-finished_example =
    write_round-finished states reachable 4 (0 ∷ 1 ∷ 2 ∷ []) (omega arith)
      (inr (refl, refl), (inl refl, (inr (refl, refl), tt)))
