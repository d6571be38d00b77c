-- ===== src/Streams/Pass.antt =====
-- service_session_pass of mod_http3/src/h3_io.c: one pass of the event thread over a session, with the
-- graceful shutdown. While it does not hold the session mutex, the workers run.
pub mod Refines
pub mod Runs
use mod_http3_stage.Prelude.{
  ℕ, zero, suc, ◌+◌, ◌*◌, ◌%◌, ◌^◌, Bool, true, false, not, ◌&&◌, ◌||◌, Option, none, some, List,
  [], ◌∷◌, leb, ◌==◌, if◌then◌else◌,
}
use mod_http3_stage.Streams.{Session}
use mod_http3_stage.Streams.Dispatch.{track_stream, process_request, free_stream}
use mod_http3_stage.Streams.Outside.{Outside, Live}
use mod_http3_stage.Streams.Flush.{flush_nghttp3}
use mod_http3_stage.Streams.Ready.{drain_ready_streams}

-- H3_GOAWAY_GRACE_SECS, in the microseconds of apr_time_from_sec
abbrev pub goaway_grace : ℕ
goaway_grace = 3 * 1000000

-- A session on the event thread. A `goaway_deadline` of 0 says that the GOAWAY was not sent yet;
-- `total_streams` is the counter of the listener.
pub record Served (W : Type 0) : Type 0 where
  pub live : Live W
  pub aborted : Bool
  pub goaway_deadline : ℕ
  pub total_streams : ℕ

module _ {W : Type 0} (o : Outside W) (fuel limit buf_size stream_buffer_size : ℕ) where
  -- The mutex is free for a while.
  abbrev pub unlocked : Live W → Live W
  unlocked l =
      let (w, session) = o.workers_run l.outside l.session in
      record l { session = session; outside = w }

  abbrev pub flush : Live W → Option (Live W)
  flush l = flush_nghttp3 o fuel limit l

  -- The branch for a listener that stops: the pass goes on, or the session is aborted.
  pub stop_gracefully : Served W → Option (Served W)
  stop_gracefully v =
      let l =
        if v.goaway_deadline == 0
        then record v.live { outside = o.submit_shutdown_notice v.live.outside }
        else v.live in
      elim (flush l) [
        | none ↦ none
        | some l' ↦
            let drained = o.is_drained l'.outside in
            let deadline =
              if v.goaway_deadline == 0
              then o.now l'.outside + goaway_grace
              else v.goaway_deadline in
            let v' = record v { live = unlocked l'; goaway_deadline = deadline } in
            if drained || leb deadline (o.now l'.outside)
            then elim (flush (record v'.live { outside = o.shutdown v'.live.outside })) [
              | none ↦ none
              | some l'' ↦ some (record v' { live = unlocked l''; aborted = true })
            ]
            else some v'
      ]

  -- the loop over h3q_conn_accept_stream
  pub accept_each : List (Option ℕ × ℕ) → Served W → Served W
  accept_each [] v = v
  accept_each ((none, st) ∷ more) v = accept_each more (record v {
    live = record v.live { session = free_stream st v.live.session };
    total_streams = (v.total_streams + 1) % 2 ^ 32;
  })
  accept_each ((some sid, st) ∷ more) v = accept_each more (record v {
    live = unlocked (record v.live {
      session =
          track_stream (o.stream_created sid v.live.outside) stream_buffer_size sid st
            v.live.session;
    });
    total_streams = (v.total_streams + 1) % 2 ^ 32;
  })

  -- h3_process_request for each completed stream
  pub process_each : List ℕ → Live W → Live W
  process_each [] l = l
  process_each (sid ∷ sids) l = process_each sids (
      unlocked (record l {
        session =
            process_request (o.task_pool_created sid l.outside) (o.task_pushed sid l.outside) sid
              l.session;
      }))

  -- From the accepting of streams on.
  pub serve_streams : Served W → Option (Served W × Bool)
  unfolding accept_each process_each
  serve_streams v =
      let (w, accepted) = o.accept_streams v.live.outside in
      let v' = accept_each accepted (record v { live = record v.live { outside = w } }) in
      elim (drain_ready_streams o limit buf_size v'.live) [
        | none ↦ none
        | some (l, data_read, completed) ↦ elim (flush l) [
          | none ↦ none
          | some l' ↦
              if l'.ngh3_dead
              then some (record v' { live = unlocked l'; aborted = true }, false)
              else elim (flush (process_each completed (unlocked l'))) [
                | none ↦ none
                | some l'' ↦ some (record v' { live = unlocked l'' }, data_read)
              ]
        ]
      ]

  -- the answer is `data_read`
  pub service_session_pass : Bool → Served W → Option (Served W × Bool)
  unfolding stop_gracefully serve_streams
  service_session_pass thread_running v =
      if v.aborted
      then some (v, false)
      else elim (if thread_running then some v else stop_gracefully v) [
        | none ↦ none
        | some v' ↦
            if v'.aborted
            then some (v', false)
            else if o.conn_is_closed v'.live.outside
            then some (record v' { aborted = true }, false)
            else if not (o.scratch_created v'.live.outside)
            then some (v', false)
            else serve_streams v'
      ]
