-- ===== src/Quic/Engine/Pump.antt =====
-- The loop of h3q_engine_pump.
use mod_http3_stage.Prelude.{
  ℕ, zero, suc, ◌<◌, ◌≡◌, ◌⊎◌, refl, sym, ap, Bool, true, false, ◌||◌, Option, none, some, arith,
  Bool-cases, Option-cases, inl, inr,
}
use mod_http3_stage.Quic.Engine.{Pumped, failed, worked, pump_loop, engine_pump}

or_true : (b : Bool) → b || true ≡ true
or_true true = refl
or_true false = refl

or_false : (b : Bool) → b || false ≡ b
or_false true = refl
or_false false = refl

module _ {E : Type 0} (handle : E → Option E) (waiting : E → Bool) (size : E → ℕ)
    (shrinks : (e e' : E) → waiting e ≡ true → handle e ≡ some e' → size e' < size e) where
  -- A pump that stopped: a call failed, or no datagram waits any more and it tells whether one did.
  record Stopped (worked_now : Bool) (r : Pumped × E) : Type 0 where
    ends :
        ((r.0 ≡ failed) × (handle r.1 ≡ none)) ⊎ ((r.0 ≡ worked worked_now) × (waiting r.1 ≡ false))

  pump_loop-Stopped :
      (fuel : ℕ) (work : Bool) (e : E)
      → size e < fuel
      → Stopped (work || waiting e) (pump_loop handle waiting fuel work e)
  unfolding pump_loop
  pump_loop-Stopped zero work e h = absurd (omega arith)
  pump_loop-Stopped (suc fuel) work e h = elim (Bool-cases (waiting e)) [
    | inl w ↦ elim (Option-cases (handle e)) [
      | inl f ↦ rw (w, pump_loop) (rw f (record { ends = inl (refl, f) }))
      | inr (e', f) ↦
          let less = shrinks e e' w f in
          rw (w, pump_loop) (rw (f, or_true work) (pump_loop-Stopped fuel true e' (omega arith)))
    ]
    | inr w ↦ rw (w, pump_loop) (record { ends = inr (ap worked (sym (or_false work)), w) })
  ]

-- Let each successful call of SSL_handle_events on an engine with a waiting datagram make a size less,
-- such as the number of the waiting datagrams. Then h3q_engine_pump on an engine with a listener
-- returns, within as many rounds as the size after its first call and one more. It answers -1 where a
-- call fails; else no datagram waits in the engine that it leaves, and it answers 1 if one waited behind
-- the first call, and 0 if none did.
pub engine_pump_ends :
    {E : Type 0} (handle : E → Option E) (waiting : E → Bool) (size : E → ℕ)
    → ((e e' : E) → waiting e ≡ true → handle e ≡ some e' → size e' < size e)
    → (fuel : ℕ) (e : E) → ((e' : E) → handle e ≡ some e' → size e' < fuel)
    → let r = engine_pump handle waiting fuel true e in
      ((r.0 ≡ failed) × (handle r.1 ≡ none))
      ⊎ ((first : E) × (handle e ≡ some first)
          × (r.0 ≡ worked (waiting first))
          × (waiting r.1 ≡ false))
unfolding engine_pump
engine_pump_ends handle waiting size shrinks fuel e enough = elim (Option-cases (handle e)) [
  | inl f ↦ rw (f, engine_pump) (inl (refl, f))
  | inr (e', f) ↦
      let s = pump_loop-Stopped handle waiting size shrinks fuel false e' (enough e' f) in
      rw (f, engine_pump)
        (elim s.ends [ inl (a, b) ↦ inl (a, b) | inr (a, b) ↦ inr (e', refl, a, b) ])
]
