-- ===== src/Streams.antt =====
-- The streams of a session: the table `session->streams` and the list `pending_free`, the nghttp3
-- callbacks of mod_http3/src/h3_callbacks.c, and h3_stream_find, track_stream and the release of QUIC
-- streams of mod_http3/src/h3_stream.c and mod_http3/src/h3_session.c. All of it runs with the session
-- mutex held. A QUIC stream object is named by its address.
pub mod Answers
pub mod Callbacks
pub mod Dispatch
pub mod Drain
pub mod Flush
pub mod Handles
pub mod Lifetime
pub mod Marks
pub mod Pass
pub mod Ready
pub mod Outside
use mod_http3_stage.Prelude.{
  ℕ, zero, suc, ◌+◌, ◌%◌, Bool, true, false, not, ◌&&◌, ◌||◌, Option, none, some, List, [], ◌∷◌,
  ◌++◌, ltb, leb, ◌==◌, if◌then◌else◌, is_some, length,
}
use mod_http3_stage.Config.Defs.{Text}
use mod_http3_stage.State.{RequestBody, Response, Stream}
use mod_http3_stage.Body.Receive.{on_recv_data}
use mod_http3_stage.ResponseQueue.{response_cancel, response_ack, response_cleanup}

-- The part of h3_session that the streams need. `freed` are the QUIC streams that h3q_stream_free has
-- freed, the latest first, and `running` the streams that a worker serves.
pub record Session : Type 0 where
  pub streams : List Stream
  pub pending_free : List ℕ
  pub freed : List ℕ
  pub running : List ℕ
  pub blocked_streams : ℕ

-- h3_stream_find
unfoldable pub find : ℕ → List Stream → Option Stream
find sid [] = none
find sid (s ∷ ss) = if s.stream_id == sid then some s else find sid ss

-- the stream with an identifier, changed in place
pub put : ℕ → Stream → List Stream → List Stream
put sid s' [] = []
put sid s' (s ∷ ss) = if s.stream_id == sid then s' ∷ ss else s ∷ put sid s' ss

-- apr_hash_set with NULL
pub remove : ℕ → List Stream → List Stream
remove sid [] = []
remove sid (s ∷ ss) = if s.stream_id == sid then ss else s ∷ remove sid ss

-- The tokens that IS_PSEUDO_TOKEN names, and the other ones.
pub data Token : Type 0 where
  method_token scheme_token path_token authority_token other : Token

-- set_pseudo; `none` is NGHTTP3_ERR_MALFORMED_HTTP_HEADER
pub set_pseudo : Token → Text → Stream → Option Stream
set_pseudo token value s =
    if length value == 0 || leb 8192 (length value) then none else elim token [
      | method_token ↦ some (record s { method = some value })
      | scheme_token ↦ some (record s { scheme = some value })
      | path_token ↦ some (record s { path = some value })
      | authority_token ↦ some (record s { authority = some value })
      | other ↦ none
    ]

-- `!stream->headers`: a table, if the stream is bidirectional
pub begin_headers : Stream → Stream
begin_headers s = if s.is_bidi && not (is_some s.headers) then record s { headers = some [] } else s

pub recv_header : Token → Text → Text → Stream → Option Stream
unfolding set_pseudo
recv_header other name value s = elim s.headers [
  | none ↦ some s
  | some headers ↦ some (record s { headers = some (headers ++ (name, value) ∷ []) })
]
recv_header method_token name value s = set_pseudo method_token value s
recv_header scheme_token name value s = set_pseudo scheme_token value s
recv_header path_token name value s = set_pseudo path_token value s
recv_header authority_token name value s = set_pseudo authority_token value s

pub end_headers : Bool → Stream → Stream
end_headers fin s =
    if s.is_bidi
    then record s { headers_complete = true; body_complete = fin || s.body_complete }
    else s

-- h3_session_queue_free on `stream->qstream`, which is NULL afterwards
pub release : Stream → List ℕ → Stream × List ℕ
release s pending_free = elim s.qstream [
  | none ↦ (s, pending_free)
  | some st ↦ (record s { qstream = none }, pending_free ++ st ∷ [])
]

pub stop_sending : Stream → List ℕ → Stream × List ℕ
unfolding release
stop_sending s pending_free =
    let (s', pending_free') =
      release (record s { response = response_cancel s.response }) pending_free in
    (record s' { done = true; body_complete = true; body_truncated = true }, pending_free')

-- on_reset_stream, but for the reset that goes out on the QUIC stream
pub reset_stream : Stream → Stream
reset_stream s = record s { response = response_cancel s.response; done = true }

pub stream_close : Stream → List ℕ → Stream × List ℕ
unfolding release
stream_close s pending_free =
    release (record s { response = response_cancel s.response; done = true }) pending_free

-- A callback that nghttp3 makes for a stream.
pub data Event : Type 0 where
  headers_begin : Event
  header : Token → Text → Text → Event
  headers_end : Bool → Event
  body_data : List ℕ → Event
  acked : ℕ → Event
  peer_stops : Event
  peer_resets : Event
  closes : Event

-- The callback on its stream; what it answers to nghttp3 is left out, a refused header leaves the
-- stream as it is, and `none` is a fault.
pub callback : ℕ → Event → Stream → List ℕ → Option (Stream × List ℕ)
unfolding begin_headers recv_header end_headers stop_sending reset_stream stream_close
callback limit headers_begin s pf = some (begin_headers s, pf)
callback limit (header token name value) s pf = elim (recv_header token name value s) [
  | none ↦ some (s, pf)
  | some s' ↦ some (s', pf)
]
callback limit (headers_end fin) s pf = some (end_headers fin s, pf)
callback limit (body_data chunk) s pf = elim (on_recv_data limit (some chunk) (some s)) [
  | none ↦ none
  | some none ↦ none
  | some (some s') ↦ some (s', pf)
]
callback limit (acked datalen) s pf =
    some (record s { response = (response_ack datalen s.response).0 }, pf)
callback limit peer_stops s pf = some (stop_sending s pf)
callback limit peer_resets s pf = some (reset_stream s, pf)
callback limit closes s pf = some (stream_close s pf)

-- A callback for the stream with an identifier: one that is not tracked has no `stream_user_data`.
pub run_callback : ℕ → ℕ → Event → Session → Option Session
unfolding find put callback
run_callback limit sid event session = elim (find sid session.streams) [
  | none ↦ some session
  | some s ↦ elim (callback limit event s session.pending_free) [
    | none ↦ none
    | some (s', pf) ↦
        some (record session { streams = put sid s' session.streams; pending_free = pf })
  ]
]

-- the end of flush_nghttp3: every QUIC stream in `pending_free` is freed, the last first
pub free_pending : Session → Session
free_pending session = record session {
  pending_free = [];
  freed = session.pending_free ++ session.freed;
}

-- What happens to a session with the mutex held: a callback for a stream, or the end of a flush.
pub data Turn : Type 0 where
  calls_back : ℕ → Event → Turn
  flushes : Turn

pub run_turns : ℕ → List Turn → Session → Option Session
unfolding run_callback free_pending
run_turns limit [] session = some session
run_turns limit (calls_back sid event ∷ ts) session = elim (run_callback limit sid event session) [
  | none ↦ none
  | some session' ↦ run_turns limit ts session'
]
run_turns limit (flushes ∷ ts) session = run_turns limit ts (free_pending session)
