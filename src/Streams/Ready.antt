-- ===== src/Streams/Ready.antt =====
-- drain_ready_streams of mod_http3/src/h3_stream.c: the streams of a session in turn, from the one after
-- the stream at which the budgets ran out before, and the reclaiming of the closed ones. The table's
-- list is the order in which apr_hash_next walks it.
pub mod Budget
pub mod Runs
pub mod Turns
use mod_http3_stage.Prelude.{
  ℕ, zero, suc, ◌+◌, ◌%◌, Bool, true, false, not, ◌&&◌, ◌||◌, Option, none, some, List, [], ◌∷◌,
  ◌++◌, ◌==◌, if◌then◌else◌, is_some, length, get_elem?,
}
use mod_http3_stage.Streams.{Session, find}
use mod_http3_stage.Streams.Dispatch.{request_ready, sid_is_server, reclaim}
use mod_http3_stage.Streams.Dispatch.Table.{ids}
use mod_http3_stage.Streams.Outside.{Outside, Live}
use mod_http3_stage.Streams.Drain.{
  Draining, flag_of, qstream_of, read_budget, byte_budget, drain_one_stream,
}

-- `h3s->done || !h3s->qstream`, or a stream of the server
pub skipped : ℕ → Session → Bool
skipped sid session =
    flag_of (λ s. s.done) sid session || not (is_some (qstream_of sid session)) || sid_is_server sid

module _ {W : Type 0} (o : Outside W) (limit buf_size : ℕ) where
  -- One stream of the snapshot, and the completed ones with it.
  pub drain_at : ℕ → Draining W → List ℕ → Option (Draining W × List ℕ)
  unfolding skipped
  drain_at sid d completed = elim (skipped sid d.live.session) [
    | true ↦ some (d, completed)
    | false ↦ elim (drain_one_stream o limit buf_size sid d) [
      | none ↦ none
      | some d' ↦ some (
        d',
        if flag_of request_ready sid d'.live.session && not d'.live.ngh3_dead
            then completed ++ sid ∷ []
            else completed,
      )
    ]
  ]

  -- Whether the loop stops behind the stream: a skipped one does not look at the budgets.
  abbrev pub spent : Draining W → Bool
  spent d = d.reads_remaining == 0 || d.bytes_remaining == 0

  -- The loop over `offset`, for the `left` offsets that remain; `none` is an index out of bounds.
  pub drain_loop : List ℕ → ℕ → ℕ → ℕ → Draining W → List ℕ → Option (Draining W × List ℕ)
  unfolding skipped drain_at
  drain_loop snapshot start offset zero d completed = some (d, completed)
  drain_loop snapshot start offset (suc left) d completed = elim d.live.ngh3_dead [
    | true ↦ some (d, completed)
    | false ↦
        let i = (start + offset) % length snapshot in
        elim (get_elem? snapshot i) [
          | none ↦ none
          | some sid ↦ elim (drain_at sid d completed) [
            | none ↦ none
            | some (d', completed') ↦ elim (not (skipped sid d.live.session) && spent d') [
              | true ↦ some (
                record d' {
                  live = record d'.live { stream_drain_cursor = (i + 1) % length snapshot };
                },
                completed',
              )
              | false ↦ drain_loop snapshot start (offset + 1) left d' completed'
            ]
          ]
        ]
  ]

  -- the last loop, over the snapshot
  pub reclaim_each : List ℕ → Session → Session
  reclaim_each [] session = session
  reclaim_each (sid ∷ sids) session = reclaim_each sids (reclaim sid session)

  pub start_at : Live W → ℕ
  start_at l =
      if length (ids l.session.streams) == 0
      then 0
      else l.stream_drain_cursor % length (ids l.session.streams)

  -- what drain_ready_streams answers: `data_read` and `completed`
  pub drain_ready_streams : Live W → Option (Live W × Bool × List ℕ)
  unfolding drain_loop reclaim_each start_at
  drain_ready_streams l =
      let snapshot = ids l.session.streams in
      let d : Draining W = record {
        live = l;
        reads_remaining = read_budget;
        bytes_remaining = byte_budget;
        data_read = false;
      } in
      elim (drain_loop snapshot (start_at l) 0 (length snapshot) d []) [
        | none ↦ none
        | some (d', completed) ↦ some (
          record d'.live { session = reclaim_each snapshot d'.live.session },
          d'.data_read,
          completed,
        )
      ]
