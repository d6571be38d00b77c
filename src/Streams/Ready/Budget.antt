-- ===== src/Streams/Ready/Budget.antt =====
-- The budgets of drain_ready_streams.
use mod_http3_stage.Prelude.{
  ℕ, zero, suc, ◌+◌, ◌*◌, ◌%◌, ◌≤◌, ◌<◌, ◌^◌, ◌≡◌, ◌⊎◌, refl, Bool, true, false, not, ◌&&◌, Option,
  none, some, List, [], arith, Bool-cases, Option-cases, inl, inr, length, get_elem?,
}
use mod_http3_stage.Streams.Dispatch.Table.{ids}
use mod_http3_stage.Streams.Dispatch.Steps.{IsServed}
use mod_http3_stage.Streams.Outside.{Outside, Live}
use mod_http3_stage.Streams.Outside.Promises.{Promises, Synced}
use mod_http3_stage.Streams.Drain.{Draining, read_budget, byte_budget, drain_one_stream}
use mod_http3_stage.Streams.Drain.Budget.{ReadsAtMost, IsSpent, drain_one-Spends}
use mod_http3_stage.Streams.Ready.{
  skipped, drain_at, spent, drain_loop, start_at, drain_ready_streams,
}
use mod_http3_stage.Streams.Ready.Runs.{drain_ready-Runs}

module _ {W : Type 0} (o : Outside W) (limit size start total : ℕ) (fits : total < 2 ^ 64)
    (at_most : ReadsAtMost o) where
  abbrev LoopSpends : Option (Draining W × List ℕ) → Type 0
  LoopSpends none = Unit
  LoopSpends (some r) = IsSpent start total r.0

  drain_at-Spends :
      (sid : ℕ) (d : Draining W) (completed : List ℕ)
      → IsSpent start total d
      → LoopSpends (drain_at o limit size sid d completed)
  unfolding drain_at
  drain_at-Spends sid d completed s = elim (Bool-cases (skipped sid d.live.session)) [
    | inl e ↦ rw (e, drain_at) s
    | inr e ↦
        let h = drain_one-Spends o limit size start total fits at_most sid d s in
        rw (e, drain_at)
          (elim (Option-cases (drain_one_stream o limit size sid d)) [
            | inl c ↦ rw c tt
            | inr (d', c) ↦ rw c (rw c at h)
          ])
  ]

  drain_loop-Spends :
      (snapshot : List ℕ) (first offset left : ℕ) (d : Draining W) (completed : List ℕ)
      → IsSpent start total d
      → LoopSpends (drain_loop o limit size snapshot first offset left d completed)
  unfolding drain_loop
  drain_loop-Spends snapshot first offset zero d completed s = s
  drain_loop-Spends snapshot first offset (suc left) d completed s =
      elim (Bool-cases d.live.ngh3_dead) [
        | inl dead ↦ rw (dead, drain_loop) s
        | inr alive ↦
            rw (alive, drain_loop)
              (elim (Option-cases (get_elem? snapshot ((first + offset) % length snapshot))) [
                | inl e ↦ rw e tt
                | inr (sid, e) ↦
                    let h = drain_at-Spends sid d completed s in
                    rw e (elim (Option-cases (drain_at o limit size sid d completed)) [
                      | inl c ↦ rw c tt
                      | inr (r, c) ↦
                          let k : IsSpent start total r.0 = rw c at h in
                          rw c
                            (elim (Bool-cases
                              (not (skipped sid d.live.session) && spent o limit size r.0)) [
                                | inl over ↦
                                    rw over (record { adds_up = k.adds_up; noted = k.noted })
                                | inr more ↦
                                    rw more
                                      (drain_loop-Spends snapshot first (offset + 1) left r.0 r.1 k)
                              ])
                    ])
              ])
      ]

  abbrev ReadySpends : Option (Live W × Bool × List ℕ) → Type 0
  ReadySpends none = Unit
  ReadySpends (some r) =
      (r.0.total_bytes_read ≤ total) × ((r.1 ≡ true) ⊎ (r.0.total_bytes_read ≡ start))

  drain_ready-Spends :
      (l : Live W)
      → l.total_bytes_read ≡ start
      → start + byte_budget ≡ total
      → ReadySpends (drain_ready_streams o limit size l)
  unfolding drain_ready_streams
  drain_ready-Spends l e f =
      let snapshot = ids l.session.streams in
      let d : Draining W = record {
        live = l;
        reads_remaining = read_budget;
        bytes_remaining = byte_budget;
        data_read = false;
      } in
      let run =
        drain_loop o limit size snapshot (start_at o limit size l) 0 (length snapshot) d [] in
      let h =
        drain_loop-Spends snapshot (start_at o limit size l) 0 (length snapshot) d []
          (record { adds_up = omega arith; noted = inr e }) in
      elim (Option-cases run) [
        | inl c ↦ rw (c, drain_ready_streams) tt
        | inr (r, c) ↦
            let k : IsSpent start total r.0 = rw c at h in
            let a = k.adds_up in rw (c, drain_ready_streams) (omega arith, k.noted)
      ]

-- Let nghttp3, OpenSSL and the workers behave as service_session_pass relies on, let
-- H3MaxRequestBodySize be at most 2^30 and let the child process have read less than 2^63 bytes. Then
-- drain_ready_streams returns, it has read at most a mebibyte from all the streams together, and it
-- says that data was read unless the count of the bytes read is what it was.
pub drain_ready_within :
    {W : Type 0} (o : Outside W) (limit bound buf_size : ℕ) (p : Promises o limit bound)
    → limit ≤ 2 ^ 30
    → (l : Live W) → IsServed limit l.session
    → Synced o p l
    → l.total_bytes_read < 2 ^ 63
    → (l' : Live W) × (data_read : Bool) × (completed : List ℕ) × (drain_ready_streams o limit
          buf_size l
        ≡ some (l', data_read, completed))
      × (l'.total_bytes_read ≤ l.total_bytes_read + 1024 * 1024)
      × ((data_read ≡ true) ⊎ (l'.total_bytes_read ≡ l.total_bytes_read))
drain_ready_within o limit bound size p small l v y few =
    let r = drain_ready-Runs o limit bound p small size l v y in
    let s =
      drain_ready-Spends o limit size l.total_bytes_read (l.total_bytes_read + byte_budget)
        (omega arith) p.reads l refl refl in
    let (most, noted) = rw r.returned at s in
    (r.next.0, r.next.1, r.next.2, r.returned, most, noted)
