-- ===== src/Prelude/Counting.antt =====
-- Counting how often a number occurs in a list.
use Prim.Native.Nat.{ℕ, ◌+◌, ◌≤◌}
use mathlib.Core.Path.{◌≡◌}
use mathlib.Core.Bool.{Bool, true, false}
use mathlib.Core.Option.{Option, none, some}
use mathlib.Core.List.{List, [], ◌∷◌, ◌++◌}
use native.Mathlib.Omega.{arith}
use mod_http3_stage.Prelude.Tests.{◌==◌}

abbrev pub one_if : Bool → ℕ
one_if true = 1
one_if false = 0

pub one_if_le : (b : Bool) → one_if b ≤ 1
one_if_le true = omega arith
one_if_le false = omega arith

abbrev pub count : ℕ → List ℕ → ℕ
count c [] = 0
count c (d ∷ ds) = one_if (c == d) + count c ds

-- once if it is there
abbrev pub count_some : ℕ → Option ℕ → ℕ
count_some c none = 0
count_some c (some d) = one_if (c == d)

pub count-append : (c : ℕ) (cs ds : List ℕ) → count c (cs ++ ds) ≡ count c cs + count c ds
count-append c [] ds = omega arith
count-append c (d ∷ cs) ds = omega (arith, count-append c cs ds)
