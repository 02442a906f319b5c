-- ===== src/Server/Writing/Rooms.antt =====
-- The room is a set: its elements rise, whatever enters and leaves.
use tyfirc.Base.{ℕ, suc, ◌<◌, false, ◌≡◌, refl, List, [], ◌∷◌, All, All-imp, ne→==, arith, Ordering}
use Prim.Native.Nat.{compare}
use tyfirc.Server.ChatRoom.{insert_id}
use tyfirc.Server.ChatRoom.Deliver.{Distinct, occurs}
use tyfirc.Server.Writing.{Rising}

-- `insert_id`, by the comparison with the first element and with the rest inserted.
abbrev pub placed : ℕ → ℕ → List ℕ → List ℕ → Ordering → List ℕ
placed id j js rest Ordering.lt = id ∷ j ∷ js
placed id j js rest Ordering.eq = j ∷ js
placed id j js rest Ordering.gt = j ∷ rest

pub insert_id-placed :
    (id j : ℕ) (js : List ℕ) (o : Ordering)
    → compare id j ≡ o
    → insert_id id (j ∷ js) ≡ placed id j js (insert_id id js) o
unfolding insert_id
insert_id-placed id j js Ordering.lt e = rw (e, insert_id) refl
insert_id-placed id j js Ordering.eq e = rw (e, insert_id) refl
insert_id-placed id j js Ordering.gt e = rw (e, insert_id) refl

placed-All :
    (P : ℕ → Type 0) (id j : ℕ) (js rest : List ℕ) (o : Ordering)
    → P id
    → P j
    → All P js
    → All P rest
    → All P (placed id j js rest o)
placed-All P id j js rest Ordering.lt p q h k = (p, (q, h))
placed-All P id j js rest Ordering.eq p q h k = (q, h)
placed-All P id j js rest Ordering.gt p q h k = (q, k)

insert_id-All :
    (P : ℕ → Type 0) (id : ℕ) (ids : List ℕ) → P id → All P ids → All P (insert_id id ids)
unfolding insert_id
insert_id-All P id [] p h = (p, tt)
insert_id-All P id (j ∷ js) p (q, h) =
    rw (insert_id-placed id j js (compare id j) refl)
      (placed-All P id j js (insert_id id js) (compare id j) p q h (insert_id-All P id js p h))

placed-Rising :
    (n id j : ℕ) (js rest : List ℕ) (o : Ordering)
    → compare id j ≡ o
    → id < n
    → j < n
    → All (λ k. j < k) js
    → Rising n js
    → (j < id → All (λ k. j < k) rest)
    → Rising n rest
    → Rising n (placed id j js rest o)
placed-Rising n id j js rest Ordering.lt e lt lt' above r more k =
    let less : id < j = ground arith in
    (lt, (less, All-imp _ _ js (λ i h. omega (arith, less)) above), (lt', above, r))
placed-Rising n id j js rest Ordering.eq e lt lt' above r more k = (lt', above, r)
placed-Rising n id j js rest Ordering.gt e lt lt' above r more k =
    let less : j < id = ground arith in (lt', more less, k)

pub insert_id-Rising :
    (n id : ℕ) (ids : List ℕ) → id < n → Rising n ids → Rising n (insert_id id ids)
unfolding insert_id
insert_id-Rising n id [] lt r = (lt, tt, tt)
insert_id-Rising n id (j ∷ js) lt (lt', above, r) =
    rw (insert_id-placed id j js (compare id j) refl) (
      placed-Rising n id j js (insert_id id js) (compare id j) refl lt lt' above r
        (λ less. insert_id-All (λ k. j < k) id js less above) (insert_id-Rising n id js lt r))

pub Rising-suc : (n : ℕ) (ids : List ℕ) → Rising n ids → Rising (suc n) ids
Rising-suc n [] r = tt
Rising-suc n (id ∷ ids) (lt, above, r) = (omega arith, above, Rising-suc n ids r)

above-fresh : (id : ℕ) (ids : List ℕ) → All (λ k. id < k) ids → occurs id ids ≡ false
above-fresh id [] h = refl
above-fresh id (j ∷ js) (lt, h) =
    rw (ne→== id j (λ e. absurd (omega arith)), above-fresh id js h) refl

-- No session stands twice in it.
pub Rising-Distinct : (n : ℕ) (ids : List ℕ) → Rising n ids → Distinct ids
Rising-Distinct n [] r = tt
Rising-Distinct n (id ∷ ids) (lt, above, r) = (above-fresh id ids above, Rising-Distinct n ids r)
