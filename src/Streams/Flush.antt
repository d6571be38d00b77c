-- ===== src/Streams/Flush.antt =====
-- flush_nghttp3 and unblock_writable_streams of mod_http3/src/h3_stream.c: what nghttp3 asks to send
-- goes out on the QUIC streams. The data that nghttp3 reads for it from the response queue is in
-- `ResponseQueue.Read`; here only the lengths count.
pub mod Round
pub mod Runs
pub mod Unblock
use mod_http3_stage.Prelude.{
  ℕ, zero, suc, ◌+◌, Bool, true, false, not, ◌&&◌, ◌||◌, Option, none, some, List, [], ◌∷◌, ◌==◌,
  if◌then◌else◌,
}
use mod_http3_stage.State.{Stream}
use mod_http3_stage.Quic.Write.{stream_write, expected}
use mod_http3_stage.Streams.{find, free_pending}
use mod_http3_stage.Streams.Dispatch.Flags.{blocked_at}
use mod_http3_stage.Streams.Dispatch.Table.{ids}
use mod_http3_stage.Streams.Marks.{blocks, unblocks, mark}
use mod_http3_stage.Streams.Outside.{
  Offer, nothing, refuses, offers, Outside, Live, add64, mark_ngh3_dead, called_back,
}

module _ {W : Type 0} (o : Outside W) where
  -- h3q_stream_is_write_blocked on `h3s->qstream`, if it is there
  abbrev pub still_full : Option ℕ → W → Bool
  still_full none w = false
  still_full (some st) w = o.buffer_is_full st w

  -- one stream of the table
  pub unblock_one : ℕ → Live W → Live W
  unblock_one sid l = elim (find sid l.session.streams) [
    | none ↦ l
    | some s ↦ if not s.write_blocked || still_full s.qstream l.outside then l else record l {
      session = mark unblocks sid l.session;
      outside = o.unblock_stream sid l.outside;
    }
  ]

  pub unblock_each : List ℕ → Live W → Live W
  unblock_each [] l = l
  unblock_each (sid ∷ sids) l = unblock_each sids (unblock_one sid l)

  pub unblock_writable_streams : Live W → Live W
  unblock_writable_streams l =
      if l.session.blocked_streams == 0 then l else unblock_each (ids l.session.streams) l

  -- nghttp3 is told that `n` bytes were sent, and that they are acknowledged.
  pub told : ℕ → ℕ → ℕ → Live W → Option (Live W)
  told limit sid n l =
      let (w, calls) = o.add_ack_offset sid n (o.add_write_offset sid n l.outside) in
      called_back limit calls w l

  -- `if (!h3s->write_blocked)` for a stream whose send buffer is full
  pub block_written : ℕ → Live W → Live W
  block_written sid l =
      if blocked_at sid l.session
      then l
      else record l { session = mark blocks sid l.session; outside = o.block_stream sid l.outside }

  -- h3q_stream_write on the QUIC stream, and what becomes of its result
  pub write_out : ℕ → ℕ → Bool → List ℕ → ℕ → Live W → Option (Live W)
  unfolding told block_written
  write_out limit sid fin lens st l =
      let (w, ssl) = o.ssl_write st l.outside in
      let res = stream_write ssl lens fin in
      let l' = record l {
        outside = w;
        total_bytes_written = add64 l.total_bytes_written res.accepted;
      } in
      if res.broken
      then told limit sid (expected lens) l'
      else elim (told limit sid res.accepted l') [
        | none ↦ none
        | some l'' ↦ some (if res.blocked then block_written sid l'' else l'')
      ]

  -- One round of the loop, for the stream that nghttp3 offers.
  pub write_offered : ℕ → ℕ → Bool → List ℕ → Live W → Option (Live W)
  unfolding told write_out
  write_offered limit sid fin lens l = elim (find sid l.session.streams) [
    | none ↦ told limit sid (expected lens) l
    | some s ↦ elim s.qstream [
      | none ↦ told limit sid (expected lens) l
      | some st ↦ write_out limit sid fin lens st l
    ]
  ]

  -- `for (;;)` on fuel; `none` when that is used up
  pub flush_loop : ℕ → ℕ → Live W → Option (Live W)
  unfolding write_offered
  flush_loop zero limit l = none
  flush_loop (suc fuel) limit l =
      let (w, offer) = o.writev_stream l.outside in
      elim offer [
        | nothing ↦ some (record l { outside = w })
        | refuses code ↦ some (mark_ngh3_dead code (record l { outside = w }))
        | offers sid fin lens ↦ elim (write_offered limit sid fin lens (record l { outside = w })) [
          | none ↦ none
          | some l' ↦ flush_loop fuel limit l'
        ]
      ]

  pub flush_nghttp3 : ℕ → ℕ → Live W → Option (Live W)
  unfolding flush_loop unblock_writable_streams
  flush_nghttp3 fuel limit l =
      if l.ngh3_dead then some l else elim (flush_loop fuel limit (unblock_writable_streams l)) [
        | none ↦ none
        | some l' ↦ some (record l' { session = free_pending l'.session })
      ]
