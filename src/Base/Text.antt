-- ===== src/Base/Text.antt =====
-- `std::string` as a list of bytes, with the operations that the sources use.
pub mod Order
pub mod Parts
use Prim.Native.Nat.{ℕ, zero, suc, ◌+◌, ◌≤◌, ◌<◌, compare, Ordering}
use Prim.Native.Char.{code}
use Prim.Native.String.{String}
use mathlib.Core.Path.{◌≡◌, refl, ap}
use mathlib.Core.Logic.{◌≢◌}
use mathlib.Core.Bool.{Bool, true, false}
use mathlib.Core.List.{List, [], ◌∷◌, ◌++◌}
use mathlib.Core.Option.{Option, none, some}
use native.Mathlib.Omega.{arith}
use tyfirc.Base.Tests.{ltb, ◌==◌, if◌then◌else◌, ne→==, eq→==}
use tyfirc.Base.Lists.{length, take, drop, take-append, drop-append, take_all, length-append, Lacks}
use tyfirc.Base.Result.{Result, ok, throw, out_of_range}

abbrev pub Str : Type 0
Str = List ℕ

-- The bytes of an ASCII literal.
abbrev pub codes : String → Str
codes String.[] = []
codes (String.◌∷◌ c s) = code c ∷ codes s

-- `s.compare(t)`, and with it `std::less`: lexicographic on the bytes.
unfoldable pub compare_str : Str → Str → Ordering
compare_str [] [] = Ordering.eq
compare_str [] (b ∷ y) = Ordering.lt
compare_str (a ∷ x) [] = Ordering.gt
compare_str (a ∷ x) (b ∷ y) = elim (compare a b) [
  | Ordering.lt ↦ Ordering.lt
  | Ordering.eq ↦ compare_str x y
  | Ordering.gt ↦ Ordering.gt
]

abbrev pub str_eq : Str → Str → Bool
str_eq a b = elim (compare_str a b) [ Ordering.eq ↦ true | _ ↦ false ]

-- `s.c_str()` read as a C string: it ends before the first zero byte.
unfoldable pub c_str : Str → Str
c_str [] = []
c_str (c ∷ s) = elim c [ zero ↦ [] | suc k ↦ suc k ∷ c_str s ]

-- `s.find(c)`; `none` is `npos`.
unfoldable pub find : Str → ℕ → Option ℕ
find [] c = none
find (x ∷ s) c =
    let rest = find s c in
    if x == c then some 0 else elim rest [ none ↦ none | some i ↦ some (suc i) ]

-- `s.find(c, pos)`; a position past the end finds nothing.
unfoldable pub find_from : Str → ℕ → ℕ → Option ℕ
unfolding find
find_from s c pos = elim (find (drop pos s) c) [ none ↦ none | some i ↦ some (pos + i) ]

-- `i + 1` of an index that may be `npos`, the largest `size_t`: it wraps around to 0.
abbrev pub next_index : Option ℕ → ℕ
next_index none = 0
next_index (some i) = suc i

-- `s.substr(pos, n)`.
unfoldable pub substr : Str → ℕ → ℕ → Result Str
substr s pos n = if ltb (length s) pos then throw out_of_range else ok (take n (drop pos s))

pub find-Lacks : (p rest : Str) (c : ℕ) → Lacks c p → find (p ++ c ∷ rest) c ≡ some (length p)
unfolding find
find-Lacks [] rest c h = rw (eq→== c c refl)
find-Lacks (x ∷ p) rest c (hx, h) = rw (ne→== x c hx, find-Lacks p rest c h)

pub find_absent : (p : Str) (c : ℕ) → Lacks c p → find p c ≡ none
unfolding find
find_absent [] c h = refl
find_absent (x ∷ p) c (hx, h) = rw (ne→== x c hx, find_absent p c h)
