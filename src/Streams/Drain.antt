-- ===== src/Streams/Drain.antt =====
-- drain_one_stream, feed_stream_fin and drain_ready_streams of mod_http3/src/h3_stream.c: what the QUIC
-- streams have is read, within a budget, and handed to nghttp3.
pub mod Budget
pub mod Runs
use mod_http3_stage.Prelude.{
  ℕ, zero, suc, ◌+◌, ◌-◌, ◌*◌, ◌%◌, Bool, true, false, not, ◌&&◌, ◌||◌, Option, none, some, List,
  [], ◌∷◌, ◌++◌, ltb, ◌==◌, if◌then◌else◌, is_some, length, get_elem?,
}
use mod_http3_stage.State.{Stream}
use mod_http3_stage.Quic.Write.{is_read_finished, stream_read}
use mod_http3_stage.Streams.{Session, find}
use mod_http3_stage.Streams.Dispatch.{request_ready, sid_is_server, reclaim}
use mod_http3_stage.Streams.Dispatch.Table.{ids}
use mod_http3_stage.Streams.Marks.{body_ends, ends, mark}
use mod_http3_stage.Streams.Outside.{Outside, Live, add64, mark_ngh3_dead, called_back}

-- H3_STREAM_DRAIN_READ_BUDGET and H3_STREAM_DRAIN_BYTE_BUDGET
abbrev pub read_budget : ℕ
read_budget = 256

abbrev pub byte_budget : ℕ
byte_budget = 1024 * 1024

-- A field of a stream in the table.
abbrev pub flag_of : (Stream → Bool) → ℕ → Session → Bool
flag_of f sid session = elim (find sid session.streams) [ none ↦ false | some s ↦ f s ]

pub qstream_of : ℕ → Session → Option ℕ
qstream_of sid session = elim (find sid session.streams) [ none ↦ none | some s ↦ s.qstream ]

-- The session and what is left of the budgets.
pub record Draining (W : Type 0) : Type 0 where
  pub live : Live W
  pub reads_remaining : ℕ
  pub bytes_remaining : ℕ
  pub data_read : Bool

module _ {W : Type 0} (o : Outside W) (limit buf_size : ℕ) where
  abbrev pub if_failed : Option ℕ → Live W → Live W
  if_failed none l = l
  if_failed (some code) l = mark_ngh3_dead code l

  pub feed_stream_fin : ℕ → Live W → Option (Live W)
  feed_stream_fin sid l =
      let (w, calls, failed) = o.read_stream sid 0 true l.outside in
      elim (called_back limit calls w l) [
        | none ↦ none
        | some l' ↦ some (record (if_failed failed l') { session = mark body_ends sid l'.session })
      ]

  -- nghttp3_conn_close_stream
  pub close_stream : ℕ → Live W → Option (Live W)
  close_stream sid l = let (w, calls) = o.close_stream sid l.outside in called_back limit calls w l

  -- The branch of drain_one_stream for a stream that has no more to read.
  pub finish_read : ℕ → Bool → Live W → Option (Live W)
  unfolding feed_stream_fin close_stream qstream_of
  finish_read sid write_finished l =
      elim (if flag_of (λ s. s.body_complete) sid l.session
        then some l
        else feed_stream_fin sid l) [
          | none ↦ none
          | some l' ↦
              if is_some (qstream_of sid l'.session) && write_finished
              then close_stream sid l'
              else some l'
        ]

  -- `nread` bytes for nghttp3, and whether the loop goes on.
  pub hand_over : ℕ → ℕ → Live W → Option (Live W × Bool)
  hand_over sid nread l =
      let l' = record l { total_bytes_read = add64 l.total_bytes_read nread } in
      let (w, calls, failed) = o.read_stream sid nread false l'.outside in
      elim (called_back limit calls w l') [
        | none ↦ none
        | some l'' ↦ elim failed [
          | some code ↦
              some (record (mark_ngh3_dead code l'') { session = mark ends sid l''.session }, false)
          | none ↦ some (l'', not (flag_of (λ s. s.done) sid l''.session))
        ]
      ]

  -- `while (*reads_remaining > 0 && *bytes_remaining > 0)`, by recursion on the reads remaining
  pub read_loop : ℕ → ℕ → ℕ → Bool → Live W → Option (Draining W)
  unfolding feed_stream_fin hand_over qstream_of
  read_loop sid zero bytes data_read l =
      some (record {
        live = l;
        reads_remaining = zero;
        bytes_remaining = bytes;
        data_read = data_read;
      })
  read_loop sid (suc reads) bytes data_read l =
      let stop : Live W → Draining W = λ l'. record {
        live = l';
        reads_remaining = suc reads;
        bytes_remaining = bytes;
        data_read = data_read;
      } in
      if bytes == 0 then some (stop l) else elim (qstream_of sid l.session) [
        | none ↦ some (stop (record l { session = mark ends sid l.session }))
        | some st ↦
            let size = if ltb buf_size bytes then buf_size else bytes in
            let (w, answer) = o.ssl_read st size l.outside in
            let l' = record l { outside = w } in
            elim (stream_read answer).0 [
              | none ↦ elim (stream_read answer).1 [
                | false ↦ some (stop l')
                | true ↦ elim (feed_stream_fin sid l') [ none ↦ none | some l'' ↦ some (stop l'') ]
              ]
              | some nread ↦ elim (hand_over sid nread l') [
                | none ↦ none
                | some (l'', true) ↦ read_loop sid reads (bytes - nread) true l''
                | some (l'', false) ↦ some (record {
                  live = l'';
                  reads_remaining = reads;
                  bytes_remaining = bytes - nread;
                  data_read = true;
                })
              ]
            ]
      ]

  -- h3q_stream_is_read_finished, if there is a QUIC stream
  abbrev pub finished_of : Option ℕ → W → Bool × Bool
  finished_of none w = (false, false)
  finished_of (some st) w =
      let (rstate, wstate) = o.stream_states st w in is_read_finished rstate wstate

  -- drain_one_stream; what it answers is `request_ready` of the stream afterwards
  pub drain_one_stream : ℕ → Draining W → Option (Draining W)
  unfolding finish_read read_loop qstream_of
  drain_one_stream sid d =
      let (read_finished, write_finished) =
        finished_of (qstream_of sid d.live.session) d.live.outside in
      elim read_finished [
        | true ↦ elim (finish_read sid write_finished d.live) [
          | none ↦ none
          | some l ↦ some (record d { live = l })
        ]
        | false ↦ read_loop sid d.reads_remaining d.bytes_remaining d.data_read d.live
      ]
