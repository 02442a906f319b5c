-- ===== src/Base/Result.antt =====
-- What a C++ call can do: return, throw, or run into undefined behaviour.
use mathlib.Core.Path.{◌≡◌, refl}

pub data Exception : Type 0 where
  invalid_argument out_of_range connection_fail system_error repository : Exception

pub data Result {ℓ} (V : Type ℓ) : Type ℓ where
  ub : Result V
  throw : Exception → Result V
  ok : V → Result V

-- The rest of a function, behind a call.
infixl 5 ◌>>=◌
abbrev pub ◌>>=◌ {ℓ κ} : {V : Type ℓ} → {W : Type κ} → Result V → (V → Result W) → Result W
ub >>= rest = ub
throw x >>= rest = throw x
ok v >>= rest = rest v

-- A function that returns has come through the call and through its rest.
abbrev pub Returns {ℓ κ} :
    {V : Type ℓ} → {W : Type κ} → Result V → (V → Result W) → W → Type (ℓ ⊔ κ)
Returns {V} call rest w = (v : V) × (call ≡ ok v) × (rest v ≡ ok w)

pub >>=-eq-ok {ℓ κ} :
    {V : Type ℓ}
    → {W : Type κ} → (call : Result V) → (rest : V → Result W) → {w : W} → (call >>= rest) ≡ ok w
    → Returns call rest w
>>=-eq-ok ub rest returned = cc
>>=-eq-ok (throw x) rest returned = cc
>>=-eq-ok (ok v) rest returned = (v, refl, returned)

module _ {ℓ κ μ} {V : Type ℓ} {W : Type κ} {X : Type μ} where
  pub >>=-assoc :
      (call : Result V) (f : V → Result W) (g : W → Result X)
      → (call >>= f >>= g) ≡ (call >>= λ v. f v >>= g)
  >>=-assoc ub f g = refl
  >>=-assoc (throw x) f g = refl
  >>=-assoc (ok v) f g = refl

pub >>=-cong {ℓ κ} :
    {V : Type ℓ}
    → {W : Type κ} → (call : Result V) → (f g : V → Result W) → ((v : V) → f v ≡ g v)
    → (call >>= f) ≡ (call >>= g)
>>=-cong ub f g e = refl
>>=-cong (throw x) f g e = refl
>>=-cong (ok v) f g e = e v
