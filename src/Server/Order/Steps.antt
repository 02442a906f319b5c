-- ===== src/Server/Order/Steps.antt =====
-- What each kind of step does to the order of the messages, for one session.
use tyfirc.Base.{
  ℕ, ◌<◌, Bool, true, false, ◌≡◌, ◌⊎◌, refl, sym, ap, ◌∙◌, List, [], ◌++◌, map, append_assoc,
  append-nil, if◌then◌else◌, Bool-cases, inl, inr,
}
use mathlib.Core.List.{map-append}
use tyfirc.Base.Text.{Str}
use tyfirc.ScMessage.{ScMessage, frame}
use tyfirc.Server.{Server}
use tyfirc.Server.ChatRoom.Deliver.{occurs, queue_of}
use tyfirc.Server.Writing.{accepts}
use tyfirc.Server.Order.{IsOrdered}

-- A session that has not entered has heard nothing.
pub outside :
    (id : ℕ) (log : List ScMessage) (written : List Str) (t : Server)
    → ([] ≡ written ++ map frame (queue_of id t))
    → occurs id t.sessions ≡ false
    → IsOrdered id log log false written t
outside id log written t nothing out = record {
  ordered = record {
    heard = [];
    unheard = [];
    all = sym (append-nil log);
    in_order = nothing;
    latest = inr refl;
  };
  before = λ e. (refl, refl, out);
  once = λ e. cc;
}

nothing_yet :
    (id : ℕ) (log missed : List ScMessage) (written : List Str) (s : Server)
    → IsOrdered id log missed false written s
    → [] ≡ written ++ map frame (queue_of id s)
nothing_yet id log missed written s v =
    let (_, none, _) = v.before refl in ap (map frame) (sym none) ∙ v.ordered.in_order

stays_out : (b : Bool) → (b ≡ true → false ≡ true) → b ≡ false
stays_out true h = sym (h refl)
stays_out false h = refl

heard_all :
    {b : Bool} {unheard : List ScMessage} → (b ≡ false) ⊎ (unheard ≡ []) → b ≡ true → unheard ≡ []
heard_all (inl out) inside = cc
heard_all (inr none) inside = none

-- What a session of the room hears of what is said.
abbrev pub reaching : Bool → List ScMessage → List ScMessage
reaching true ms = ms
reaching false ms = []

-- Messages are said, and bytes of the queue are written; the session does not enter.
pub passed :
    (id : ℕ) (log missed ms : List ScMessage) (joined : Bool) (written out : List Str)
    (s t : Server)
    → out ++ map frame (queue_of id t)
      ≡ map frame (queue_of id s) ++ map frame (reaching (occurs id s.sessions) ms)
    → (occurs id t.sessions ≡ true → occurs id s.sessions ≡ true)
    → (joined ≡ true → (occurs id (accepts t.ops) ≡ false) × (id < t.next_id))
    → IsOrdered id log missed joined written s
    → IsOrdered id (log ++ ms) (if joined then missed else log ++ ms) joined (written ++ out) t
passed id log missed ms false written out s t flow stayed once v =
    let (_, _, away) = v.before refl in
    let same : out ++ map frame (queue_of id t) ≡ map frame (queue_of id s) =
      flow ∙ rw away (append-nil (map frame (queue_of id s))) in
    outside id (log ++ ms) (written ++ out) t
      (nothing_yet id log missed written s v
        ∙ ap (λ q. written ++ q) (sym same)
        ∙ sym (append_assoc written out (map frame (queue_of id t))))
      (stays_out (occurs id t.sessions) (λ h. sym away ∙ stayed h))
passed id log missed ms true written out s t flow stayed once v =
    elim (Bool-cases (occurs id s.sessions)) [
      | inl inside ↦
          let heard = v.ordered.heard in
          let whole : log ≡ missed ++ (heard ++ []) =
            v.ordered.all ∙ ap (λ u. missed ++ (heard ++ u)) (heard_all v.ordered.latest inside) in
          record {
            ordered = record {
              heard = heard ++ ms;
              unheard = [];
              all = ap (λ l. l ++ ms) whole ∙ simp (append_assoc, append-nil);
              in_order =
                  map-append frame heard ms
                  ∙ ap (λ w. w ++ map frame ms) v.ordered.in_order
                  ∙ append_assoc written (map frame (queue_of id s)) (map frame ms)
                  ∙ ap (λ q. written ++ q) (sym (flow ∙ rw inside refl))
                  ∙ sym (append_assoc written out (map frame (queue_of id t)));
              latest = inr refl;
            };
            before = λ e. cc;
            once = once;
          }
      | inr away ↦
          let same : out ++ map frame (queue_of id t) ≡ map frame (queue_of id s) =
            flow ∙ rw away (append-nil (map frame (queue_of id s))) in
          record {
            ordered = record {
              heard = v.ordered.heard;
              unheard = v.ordered.unheard ++ ms;
              all = ap (λ l. l ++ ms) v.ordered.all ∙ simp append_assoc;
              in_order =
                  v.ordered.in_order
                  ∙ ap (λ q. written ++ q) (sym same)
                  ∙ sym (append_assoc written out (map frame (queue_of id t)));
              latest = inl (stays_out (occurs id t.sessions) (λ h. sym away ∙ stayed h));
            };
            before = λ e. cc;
            once = once;
          }
    ]

-- The session enters, for the first time: it hears all that is said from now on.
pub entered :
    (id : ℕ) (log missed : List ScMessage) (joined : Bool) (written : List Str) (s t : Server)
    → queue_of id t ≡ queue_of id s
    → joined ≡ false
    → (occurs id (accepts t.ops) ≡ false) × (id < t.next_id)
    → IsOrdered id log missed joined written s
    → IsOrdered id log (if joined then missed else log) true written t
entered id log missed true written s t queue not_yet once v = cc
entered id log missed false written s t queue not_yet once v = record {
  ordered = record {
    heard = [];
    unheard = [];
    all = sym (append-nil log);
    in_order = rw queue (nothing_yet id log missed written s v);
    latest = inr refl;
  };
  before = λ e. cc;
  once = λ e. once;
}
