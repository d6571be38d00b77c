-- ===== src/Streams/Dispatch.antt =====
-- The life of a request stream between the event thread and its worker: track_stream, what
-- drain_one_stream answers and the end of drain_ready_streams of mod_http3/src/h3_stream.c, with
-- h3_process_request and stream_worker of mod_http3/src/h3_request.c. A step is what one thread does
-- while it holds the session mutex.
pub mod Answering
pub mod Blocked
pub mod Counted
pub mod Flags
pub mod Objects
pub mod Places
pub mod Table
pub mod Steps
pub mod Workers
use mod_http3_stage.Prelude.{
  ℕ, zero, suc, ◌+◌, ◌-◌, ◌/◌, ◌%◌, ◌<◌, ◌≡◌, Bool, true, false, not, ◌&&◌, ◌||◌, Option, none,
  some, List, [], ◌∷◌, ◌++◌, ◌==◌, if◌then◌else◌, is_some, count,
}
use mod_http3_stage.Config.Defs.{stream_buffer_size_default}
use mod_http3_stage.State.{RequestBody, Response, Stream}
use mod_http3_stage.ResponseQueue.{response_cleanup}
use mod_http3_stage.Streams.{Session, find, put, remove, Event, run_callback, free_pending}
use mod_http3_stage.Requests.{Attempt}
use mod_http3_stage.Streams.Answers.{Answer, worker_answers, read_response}
use mod_http3_stage.Streams.Callbacks.{IsObject}
use mod_http3_stage.Streams.Marks.{Mark, mark}

-- H3_SID_IS_BIDI and H3_SID_IS_SERVER
pub sid_is_bidi : ℕ → Bool
sid_is_bidi sid = sid / 2 % 2 == 0

pub sid_is_server : ℕ → Bool
sid_is_server sid = sid % 2 == 1

-- `apr_pcalloc`, and the fields that track_stream sets; a buffer size of 0 is the default
pub new_stream : ℕ → ℕ → ℕ → Stream
unfolding sid_is_bidi
new_stream buffer_size sid st = record {
  stream_id = sid;
  qstream = some st;
  done = false;
  write_blocked = false;
  is_bidi = sid_is_bidi sid;
  headers_complete = false;
  dispatched = false;
  worker_done = false;
  body_complete = false;
  body_truncated = false;
  body = record { bytes = []; len = 0; offset = 0; capacity = 0; overflow = false };
  method = none;
  scheme = none;
  authority = none;
  path = none;
  headers = none;
  response = record {
    chunks = [];
    tail = none;
    submit_chunk = none;
    submit_offset = 0;
    buffered = 0;
    len = 0;
    buffer_limit = if buffer_size == 0 then stream_buffer_size_default else buffer_size;
    submitted = false;
    complete = false;
    cancelled = false;
  };
}

-- track_stream; `created` says that the pool and the condition variable could be created. A stream that
-- is not tracked is freed by the caller.
pub track_stream : Bool → ℕ → ℕ → ℕ → Session → Session
unfolding new_stream
track_stream created buffer_size sid st session = elim (find sid session.streams) [
  | some s ↦ record session { streams = put sid (record s { qstream = some st }) session.streams }
  | none ↦
      if created
      then record session { streams = session.streams ++ new_stream buffer_size sid st ∷ [] }
      else record session { freed = st ∷ session.freed }
]

-- h3q_stream_free on a stream without an identifier
pub free_stream : ℕ → Session → Session
free_stream st session = record session { freed = st ∷ session.freed }

-- what drain_one_stream answers: the request can be dispatched
pub request_ready : Stream → Bool
request_ready s = s.is_bidi && s.headers_complete && s.body_complete && not s.dispatched

-- h3_process_request: `pool_created` and `pushed` are the answers of APR
pub process_request : Bool → Bool → ℕ → Session → Session
process_request pool_created pushed sid session = elim (find sid session.streams) [
  | none ↦ session
  | some s ↦
      if s.dispatched
      then session
      else if pool_created && pushed
      then record session {
        streams = put sid (record s { dispatched = true }) session.streams;
        running = sid ∷ session.running;
      }
      else record session { streams = put sid (record s { dispatched = false }) session.streams }
]

-- a worker that returns
pub leave : ℕ → List ℕ → List ℕ
leave sid [] = []
leave sid (r ∷ rs) = if sid == r then rs else r ∷ leave sid rs

-- The early returns of stream_worker
pub worker_gives_up : ℕ → Session → Session
unfolding leave
worker_gives_up sid session = elim (find sid session.streams) [
  | none ↦ session
  | some s ↦ record session {
    streams = put sid (record s { dispatched = false }) session.streams;
    running = leave sid session.running;
  }
]

-- The end of stream_worker
pub worker_returns : ℕ → Session → Session
unfolding leave
worker_returns sid session = elim (find sid session.streams) [
  | none ↦ session
  | some s ↦ record session {
    streams = put sid (record s { worker_done = true }) session.streams;
    running = leave sid session.running;
  }
]

-- Closed, its QUIC stream released, and its worker returned.
pub reclaimable : Stream → Bool
unfolding sid_is_server
reclaimable s =
    s.is_bidi
    && not (sid_is_server s.stream_id)
    && s.done
    && not (is_some s.qstream)
    && s.dispatched
    && s.worker_done

-- the end of drain_ready_streams, for one stream of the snapshot
pub reclaim : ℕ → Session → Session
unfolding reclaimable
reclaim sid session = elim (find sid session.streams) [
  | none ↦ session
  | some s ↦
      if reclaimable s
      then record session {
        streams = remove sid session.streams;
        blocked_streams =
            if s.write_blocked then session.blocked_streams - 1 else session.blocked_streams;
      }
      else session
]

-- What the threads may do to a session.
pub data Step (limit : ℕ) : Session → Session → Type 0 where
  calls_back :
      (sid : ℕ)
      → (event : Event) → {session session' : Session} → IsObject limit event
      → run_callback limit sid event session ≡ some session'
      → Step limit session session'
  flushes : {session : Session} → Step limit session (free_pending session)
  tracks :
      (created : Bool)
      → (buffer_size sid st : ℕ) → {session : Session}
      → Step limit session (track_stream created buffer_size sid st session)
  dispatches :
      (pool_created pushed : Bool)
      → (sid : ℕ) → {session : Session}
      → Step limit session (process_request pool_created pushed sid session)
  gives_up :
      (sid : ℕ)
      → {session : Session} → 0 < count sid session.running
      → Step limit session (worker_gives_up sid session)
  returns :
      (sid : ℕ)
      → {session : Session} → 0 < count sid session.running
      → Step limit session (worker_returns sid session)
  answers :
      (a : Attempt)
      → (w : Answer) → (sid : ℕ) → {session : Session} → 0 < count sid session.running
      → Step limit session (worker_answers a w sid session)
  reads :
      (veccnt sid : ℕ)
      → {session session' : Session} → read_response veccnt sid session ≡ some session'
      → Step limit session session'
  reclaims : (sid : ℕ) → {session : Session} → Step limit session (reclaim sid session)
  marks : (m : Mark) → (sid : ℕ) → {session : Session} → Step limit session (mark m sid session)
  frees : (st : ℕ) → {session : Session} → Step limit session (free_stream st session)

-- any number of steps, in any order
pub data Reaches (limit : ℕ) : Session → Session → Type 0 where
  stays : {session : Session} → Reaches limit session session
  steps :
      {session next last : Session}
      → Step limit session next
      → Reaches limit next last
      → Reaches limit session last
