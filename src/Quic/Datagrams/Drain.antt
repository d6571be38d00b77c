-- ===== src/Quic/Datagrams/Drain.antt =====
-- How the queue of datagrams empties, for the loop of h3q_engine_pump in mod_http3/src/quic/h3q.c.
use mod_http3_stage.Prelude.{
  ℕ, suc, ◌≡◌, ◌∙◌, refl, ap, true, false, Option, none, List, [], ◌∷◌, arith, ltb, ◌==◌, length,
  Bool-cases, inl, inr,
}
use mod_http3_stage.Quic.Datagrams.{Datagram, Engine, Message, queue_pop, deliver, recvmmsg}
use mod_http3_stage.Quic.Datagrams.Order.{Call, run}

deliver_tail :
    (msg : Message) (d : Datagram) (q : List Datagram) (current : Option ℕ)
    → msg.has_buffer ≡ true
    → (deliver msg (record { queue = d ∷ q; current_peer_addr = current })).engine.queue ≡ q
unfolding deliver queue_pop
deliver_tail msg d q current b = elim (Bool-cases (ltb msg.data_len (length d.bytes))) [
  | inl e ↦ ground arith
  | inr e ↦ ground arith
]

recvmmsg_tail :
    (c : Call) (d : Datagram) (q : List Datagram) (current : Option ℕ)
    → c.msg.has_buffer ≡ true
    → (recvmmsg c.socket c.msg (record { queue = d ∷ q; current_peer_addr = current })).engine.queue
      ≡ q
unfolding recvmmsg
recvmmsg_tail c d q current b =
    let e : (suc (length q) == 0) ≡ false = ground arith in
    rw (e, recvmmsg) (deliver_tail c.msg d q none b)

-- Each call has a buffer, of any size.
abbrev pub AllBuffers : List Call → Type 0
AllBuffers [] = Unit
AllBuffers (c ∷ cs) = (c.msg.has_buffer ≡ true) × AllBuffers cs

drains :
    (cs : List Call) (q : List Datagram) (current : Option ℕ)
    → AllBuffers cs
    → length cs ≡ length q
    → (run cs (record { queue = q; current_peer_addr = current })).engine.queue ≡ []
unfolding run
drains [] [] current b h = refl
drains [] (d ∷ q) current b h = absurd (omega arith)
drains (c ∷ cs) [] current b h = absurd (omega arith)
drains (c ∷ cs) (d ∷ q) current b h =
    let o = recvmmsg c.socket c.msg (record { queue = d ∷ q; current_peer_addr = current }) in
    let t = recvmmsg_tail c d q current b.0 in
    ap
      (λ r.
        (run cs (
          let e : Engine = record { queue = r; current_peer_addr = o.engine.current_peer_addr } in
          e)).engine.queue)
      t
    ∙ drains cs q o.engine.current_peer_addr b.1 (omega arith)

-- As many calls as there are datagrams in the queue empty it, whatever the sizes of the buffers and of
-- the datagrams, as long as each call has a buffer: one that does not fit is dropped.
pub run_drains :
    (cs : List Call) (engine : Engine)
    → AllBuffers cs
    → length cs ≡ length engine.queue
    → (run cs engine).engine.queue ≡ []
run_drains cs engine b h = drains cs engine.queue engine.current_peer_addr b h
