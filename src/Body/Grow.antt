-- ===== src/Body/Grow.antt =====
-- The doubling loop that both body buffers share: `while (new_cap < needed) new_cap *= 2;`.
-- `size_t` is 64 bits wide. The fuel is the number of doublings left; `none` is a loop that has not
-- ended by then.
use mod_http3_stage.Prelude.{
  ℕ, zero, suc, ◌*◌, ◌%◌, ◌^◌, ◌≤◌, ◌<◌, ◌≡◌, refl, Option, none, some, arith, ltb, if◌then◌else◌,
  Bool-cases, inl, inr, ltb→lt, ◌⊎◌,
}
use native.Mathlib.Nat.{pow-suc, mul_comm, mul_assoc}

abbrev pub double : ℕ → ℕ
double n = n * 2 % 2 ^ 64

unfoldable pub grow : ℕ → ℕ → ℕ → Option ℕ
grow zero cap needed = if ltb cap needed then none else some cap
grow (suc fuel) cap needed =
    let rest = grow fuel (double cap) needed in if ltb cap needed then rest else some cap

-- What the loop ends with: enough room, and at most twice the need unless no growth was needed.
pub record Grown (cap needed out : ℕ) : Type 0 where
  pub room : needed ≤ out
  pub kept : cap ≤ out
  pub tight : (out ≡ cap) ⊎ (out ≤ 2 * needed)

double_pow : (cap fuel : ℕ) → cap * 2 * 2 ^ fuel ≡ cap * 2 ^ suc fuel
double_pow cap fuel = rw (pow-suc, mul_comm (2 ^ fuel) 2) (mul_assoc cap 2 (2 ^ fuel))

double_small : (cap : ℕ) → cap < 2 ^ 62 → double cap ≡ cap * 2
double_small cap h = omega arith

Grown-of_double :
    (cap d needed out : ℕ) → cap < needed → d ≡ cap * 2 → Grown d needed out → Grown cap needed out
Grown-of_double cap d needed out lt e g = record {
  room = g.room;
  kept = omega (arith, g.kept);
  tight = inr (elim g.tight [ inl same ↦ omega arith | inr le ↦ le ]);
}

-- Once as many rounds are left as the need has doublings above the capacity, the loop ends.
pub grow_enough :
    (fuel cap needed : ℕ)
    → needed ≤ 2 ^ 62
    → needed ≤ cap * 2 ^ fuel
    → (out : ℕ) × (grow fuel cap needed ≡ some out) × Grown cap needed out
unfolding grow
grow_enough zero cap needed q r =
    (cap, ground arith, record { room = omega arith; kept = omega arith; tight = inl refl })
grow_enough (suc fuel) cap needed q r = elim (Bool-cases (ltb cap needed)) [
  | inl more ↦
      let lt : cap < needed = ltb→lt cap needed more in
      let e : double cap ≡ cap * 2 = double_small cap (omega arith) in
      let (out, run, g) = grow_enough fuel (double cap) needed q (rw (e, double_pow cap fuel) r) in
      (out, rw more run, Grown-of_double cap _ needed out lt e g)
  | inr done ↦ (cap, rw done, record { room = ground arith; kept = omega arith; tight = inl refl })
]

-- 64 rounds are enough for any need up to 2 ^ 62.
pub grow_total :
    (cap needed : ℕ)
    → 0 < cap
    → needed ≤ 2 ^ 62
    → (out : ℕ) × (grow 64 cap needed ≡ some out) × Grown cap needed out
grow_total cap needed p q = grow_enough 64 cap needed q (omega arith)
