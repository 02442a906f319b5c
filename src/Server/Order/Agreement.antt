-- ===== src/Server/Order/Agreement.antt =====
-- Two sessions of the room: what each of them hears.
use tyfirc.Base.{
  ℕ, true, refl, ◌≡◌, ◌⊎◌, inl, inr, sym, ap, ◌∙◌, List, [], ◌∷◌, ◌++◌, map, append-nil,
}
use tyfirc.Base.Text.{Str}
use tyfirc.Time.{Clock}
use tyfirc.AuthManager.{FileAuthManager}
use tyfirc.ScMessage.{ScMessage, frame}
use tyfirc.Server.{Server}
use tyfirc.Server.ChatRoom.Deliver.{occurs, queue_of}
use tyfirc.Server.App.{Reach, initial}
use tyfirc.Server.Order.{log, missed, written, Ordered}
use tyfirc.Server.Order.Reachable.{Reach-Ordered}

-- Of two ways to split the same list, one comes first.
splits :
    {A : Type 0} (xs ys us vs : List A)
    → xs ++ us ≡ ys ++ vs
    → ((b : List A) × (ys ≡ xs ++ b) × (us ≡ b ++ vs))
      ⊎ ((b : List A) × (xs ≡ ys ++ b) × (vs ≡ b ++ us))
splits [] ys us vs e = inl (ys, refl, e)
splits (x ∷ xs) [] us vs e = inr (x ∷ xs, refl, sym e)
splits (x ∷ xs) (y ∷ ys) us vs e = elim (splits xs ys us vs cc) [
  | inl (b, f, g) ↦ inl (b, cc, g)
  | inr (b, f, g) ↦ inr (b, cc, g)
]

-- What was said in the room is what the one missed, what was said until the other entered, and what
-- was said since: the one got the latter two, the other the last.
pub record Shared (log missed_i missed_j : List ScMessage) (sent_i sent_j : List Str) : Type 0 where
  pub between : List ScMessage
  pub common : List ScMessage
  pub all : log ≡ missed_i ++ (between ++ common)
  pub entered : missed_j ≡ missed_i ++ between
  pub got_i : map frame (between ++ common) ≡ sent_i
  pub got_j : map frame common ≡ sent_j

-- The bytes that were written to a session from its queue, and those that wait in it.
abbrev pub sent : {c : Clock} {s t : Server} → ℕ → Reach c s t → List Str
sent {t = t} id r = written id r ++ map frame (queue_of id t)

in_room :
    (id : ℕ) (lg ms : List ScMessage) (ws : List Str) (s : Server)
    → occurs id s.sessions ≡ true
    → (o : Ordered id lg ms ws s) → lg ≡ ms ++ o.heard
in_room id lg ms ws s inside o = elim o.latest [
  | inl out ↦ cc
  | inr none ↦ o.all ∙ ap (λ u. ms ++ (o.heard ++ u)) none ∙ ap (λ h. ms ++ h) (append-nil o.heard)
]

shared :
    (lg mi mj hi hj b : List ScMessage) (si sj : List Str)
    → lg ≡ mi ++ hi
    → map frame hi ≡ si
    → map frame hj ≡ sj
    → mj ≡ mi ++ b
    → hi ≡ b ++ hj
    → Shared lg mi mj si sj
shared lg mi mj hi hj b si sj e fi fj split h = record {
  between = b;
  common = hj;
  all = e ∙ ap (λ x. mi ++ x) h;
  entered = split;
  got_i = sym (ap (map frame) h) ∙ fi;
  got_j = fj;
}

-- Whenever two sessions are in the room, one of them entered first: what the other missed is what
-- the first missed and what was said until the other entered. The bytes that were written to the
-- first from its queue or wait in it are the frames of all that was said since it entered; those of
-- the other are the frames of all that was said since it entered itself, which the first got too, in
-- the same order.
pub Reach-Shared :
    (c : Clock) (a : FileAuthManager) (i j : ℕ) {s : Server} (r : Reach c (initial a) s)
    → occurs i s.sessions ≡ true
    → occurs j s.sessions ≡ true
    → Shared (log r) (missed i r) (missed j r) (sent i r) (sent j r)
      ⊎ Shared (log r) (missed j r) (missed i r) (sent j r) (sent i r)
Reach-Shared c a i j {s} r at_i at_j =
    let o = Reach-Ordered c a i r in
    let p = Reach-Ordered c a j r in
    let ei = in_room i (log r) (missed i r) (written i r) s at_i o in
    let ej = in_room j (log r) (missed j r) (written j r) s at_j p in
    elim (splits (missed i r) (missed j r) o.heard p.heard (sym ei ∙ ej)) [
      | inl (b, f, g) ↦ inl (
          shared (log r) (missed i r) (missed j r) o.heard p.heard b (sent i r) (sent j r) ei
            o.in_order p.in_order f g)
      | inr (b, f, g) ↦ inr (
          shared (log r) (missed j r) (missed i r) p.heard o.heard b (sent j r) (sent i r) ej
            p.in_order o.in_order f g)
    ]
