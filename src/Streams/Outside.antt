-- ===== src/Streams/Outside.antt =====
-- What a session meets outside of the module: nghttp3, OpenSSL and the peer behind it. `W` is the state
-- of all of them together; each call gives the state after it and the answer.
pub mod Promises
pub mod Runs
pub mod Totals
use mod_http3_stage.Prelude.{
  ℕ, zero, ◌+◌, ◌%◌, ◌^◌, Bool, true, false, Option, none, some, List, [], ◌∷◌,
}
use mod_http3_stage.Streams.{Session, Event, run_callback}
use mod_http3_stage.Quic.Write.{Written, StreamState, ReadAnswer}

-- nghttp3_conn_writev_stream: nothing left to send, an error with the QUIC code inferred from it, or
-- the stream, whether it ends, and the lengths of the vectors
pub data Offer : Type 0 where
  nothing : Offer
  refuses : ℕ → Offer
  offers : ℕ → Bool → List ℕ → Offer

-- The callbacks that nghttp3 makes before it returns.
abbrev pub Calls : Type 0
Calls = List (ℕ × Event)

pub record Outside (W : Type 0) : Type 0 where
  pub writev_stream : W → W × Offer
  pub add_write_offset : ℕ → ℕ → W → W
  pub add_ack_offset : ℕ → ℕ → W → W × Calls
  pub block_stream : ℕ → W → W
  pub unblock_stream : ℕ → W → W
  -- nghttp3_conn_read_stream of `nread` bytes, or of the end: the code is there when it fails
  pub read_stream : ℕ → ℕ → Bool → W → W × Calls × Option ℕ
  pub close_stream : ℕ → W → W × Calls
  pub submit_shutdown_notice : W → W
  pub shutdown : W → W
  pub is_drained : W → Bool
  pub ssl_write : ℕ → W → W × (ℕ → ℕ → Written)
  pub ssl_read : ℕ → ℕ → W → W × ReadAnswer
  pub stream_states : ℕ → W → StreamState × StreamState
  pub buffer_is_full : ℕ → W → Bool
  -- the streams that SSL_accept_stream gives until there is none, an identifier below 0 as `none`
  pub accept_streams : W → W × List (Option ℕ × ℕ)
  pub conn_is_closed : W → Bool
  pub now : W → ℕ
  pub scratch_created : W → Bool
  pub stream_created : ℕ → W → Bool
  pub task_pool_created : ℕ → W → Bool
  pub task_pushed : ℕ → W → Bool
  -- what the workers do to the session, and to nghttp3, while the event thread does not hold the mutex
  pub workers_run : W → Session → W × Session

-- The callbacks, one after the other.
pub run_calls : ℕ → Calls → Session → Option Session
unfolding run_callback
run_calls limit [] session = some session
run_calls limit ((sid, event) ∷ calls) session = elim (run_callback limit sid event session) [
  | none ↦ none
  | some session' ↦ run_calls limit calls session'
]

-- A session with the counters of `child_h3_io` and the state outside.
pub record Live (W : Type 0) : Type 0 where
  pub session : Session
  pub outside : W
  pub ngh3_dead : Bool
  pub abort_quic_error_code : ℕ
  pub stream_drain_cursor : ℕ
  pub total_bytes_read : ℕ
  pub total_bytes_written : ℕ

-- apr_atomic_add64
abbrev pub add64 : ℕ → ℕ → ℕ
add64 a b = (a + b) % 2 ^ 64

-- mark_ngh3_dead, but for the text of the reason
unfoldable pub mark_ngh3_dead : {W : Type 0} → ℕ → Live W → Live W
mark_ngh3_dead code l = record l { ngh3_dead = true; abort_quic_error_code = code }

-- The session after callbacks, in the state outside that nghttp3 left.
pub called_back : {W : Type 0} → ℕ → Calls → W → Live W → Option (Live W)
unfolding run_calls
called_back limit calls w l = elim (run_calls limit calls l.session) [
  | none ↦ none
  | some session ↦ some (record l { session = session; outside = w })
]
