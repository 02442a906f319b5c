-- ===== src/Older/Ending.antt =====
-- When the loop that writes one message to all sessions ends.
use tyfirc.Base.{
  ℕ, zero, suc, ◌<◌, Bool, true, ◌≡◌, ◌⊎◌, inl, inr, refl, ◌∙◌, List, [], ◌∷◌, ◌++◌, All, arith,
  length, append_assoc, append-nil,
}
use tyfirc.Misc.{ConnectionState, not_connected, logged_in}
use tyfirc.Older.{clean_session, advance, finished, write_round}

-- The sessions that are logged in, in their order.
abbrev pub logged : (ℕ → ConnectionState) → List ℕ → List ℕ
logged state [] = []
logged state (id ∷ ids) = elim (state id) [
  | logged_in ↦ id ∷ logged state ids
  | _ ↦ logged state ids
]

-- A session that the loop cleans away, or to which it can write.
abbrev pub Settled : (ℕ → ConnectionState) → (ℕ → Bool) → ℕ → Type 0
Settled state writes id = (state id ≡ not_connected) ⊎ ((state id ≡ logged_in) × (writes id ≡ true))

round_from :
    (state : ℕ → ConnectionState) (writes : ℕ → Bool) (fuel : ℕ) (before ids written : List ℕ)
    → length ids < fuel
    → All (Settled state writes) ids
    → write_round state writes fuel (record { before = before; from = ids }) written
      ≡ finished
          (record { before = before ++ logged state ids; from = [] })
          (written ++ logged state ids)
unfolding write_round clean_session advance
round_from state writes zero before ids written lt h = absurd (omega arith)
round_from state writes (suc fuel) before [] written lt h =
    rw (append-nil before, append-nil written) refl
round_from state writes (suc fuel) before (id ∷ ids) written lt (inl e, hs) =
    rw (e, write_round, logged) (round_from state writes fuel before ids written (omega arith) hs)
round_from state writes (suc fuel) before (id ∷ ids) written lt (inr (e, writable), hs) =
    rw (e, write_round, logged, writable)
      (round_from state writes fuel (before ++ id ∷ []) ids (written ++ id ∷ []) (omega arith) hs
        ∙ rw
            (
              append_assoc before (id ∷ []) (logged state ids),
              append_assoc written (id ∷ []) (logged state ids),
            )
            refl)

-- If each session is not connected, or is logged in and can be written to, and the other thread
-- changes none of their states during the loop, then as many passes as there are sessions, and one,
-- are enough: the message is written to each session that is logged in, in their order, and the
-- others are removed.
pub write_round-finished :
    (state : ℕ → ConnectionState) (writes : ℕ → Bool) (fuel : ℕ) (ids : List ℕ)
    → length ids < fuel
    → All (Settled state writes) ids
    → write_round state writes fuel (record { before = []; from = ids }) []
      ≡ finished (record { before = logged state ids; from = [] }) (logged state ids)
write_round-finished state writes fuel ids lt h = round_from state writes fuel [] ids [] lt h
