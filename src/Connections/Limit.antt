-- ===== src/Connections/Limit.antt =====
-- The number of connections that the accept loop of mod_http3/src/h3_threads.c lets in.
use mod_http3_stage.Prelude.{
  ℕ, ◌+◌, ◌%◌, ◌^◌, ◌≤◌, ◌<◌, ◌≡◌, ◌∙◌, refl, List, [], ◌∷◌, ◌++◌, arith, leb, length,
  length-append, Bool-cases, inl, inr,
}
use mod_http3_stage.Connections.{
  Io, Answers, at_connection_limit, prepare_accepted_connection, accept_one, accept_all,
}

-- The connections held, and those freed.
abbrev pub held : Io → ℕ
held io = length io.active_sessions + length io.pending_handshakes

-- One connection is kept pending or freed, and the limit is not passed.
record One (max : ℕ) (io io' : Io) : Type 0 where
  within : held io' ≤ max
  all : held io' + length io'.freed ≡ held io + length io.freed + 1
  same : io'.active_sessions ≡ io.active_sessions

one :
    (max now conn : ℕ) (a : Answers) (io : Io)
    → max < 2 ^ 32
    → held io ≤ max
    → One max io (accept_one max a now conn io)
unfolding accept_one at_connection_limit prepare_accepted_connection
one max now conn a io small h =
    let sum : length (io.pending_handshakes ++ record { conn = conn; accepted_at = now } ∷ [])
        ≡ length io.pending_handshakes + 1 =
      length-append io.pending_handshakes _ in
    elim (Bool-cases
      (leb max ((length io.active_sessions + length io.pending_handshakes) % 2 ^ 32))) [
        | inl e ↦ rw e (record { within = h; all = omega arith; same = refl })
        | inr e ↦
            let room : held io < max = ground arith in
            rw e (elim (Bool-cases (a.prepared conn)) [
              | inl p ↦ rw p (record { within = omega arith; all = omega arith; same = refl })
              | inr p ↦ rw p (record { within = h; all = omega arith; same = refl })
            ])
      ]

-- With a limit below 2^32 that is not exceeded before, accepting any connections does not exceed it,
-- whatever fails on the way. Each of them is held from then on or was freed, so that none is lost, and
-- the active sessions stay as they are.
pub accept_all_within :
    (max now : ℕ) (a : Answers) (conns : List ℕ) (io : Io)
    → max < 2 ^ 32
    → held io ≤ max
    → (held (accept_all max a now conns io) ≤ max)
      × (held (accept_all max a now conns io) + length (accept_all max a now conns io).freed
          ≡ held io + length io.freed + length conns)
      × ((accept_all max a now conns io).active_sessions ≡ io.active_sessions)
unfolding accept_all
accept_all_within max now a [] io small h = (h, omega arith, refl)
accept_all_within max now a (conn ∷ conns) io small h =
    let o = one max now conn a io small h in
    let (w, s, k) =
      accept_all_within max now a conns (accept_one max a now conn io) small o.within in
    (w, (let t = o.all in omega arith), k ∙ o.same)
