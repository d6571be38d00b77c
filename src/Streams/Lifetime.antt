-- ===== src/Streams/Lifetime.antt =====
-- The start and the end of a session: h3_session_create_control_streams and h3_session_destroy of
-- mod_http3/src/h3_session.c.
pub mod Objects
use mod_http3_stage.Prelude.{
  ℕ, Bool, true, false, not, ◌||◌, Option, none, some, List, [], ◌∷◌, ◌++◌, if◌then◌else◌, is_some,
}
use mod_http3_stage.State.{Stream}
use mod_http3_stage.ResponseQueue.{response_cancel, response_cleanup}
use mod_http3_stage.Streams.{Session, find, free_pending}
use mod_http3_stage.Streams.Dispatch.{track_stream}

-- A session with `session->ngh3`, whether there is one, and `control_streams_created`.
pub record Started : Type 0 where
  pub session : Session
  pub has_ngh3 : Bool
  pub control_streams_created : Bool

-- What h3q_conn_open_uni_stream gives for the three streams, an identifier and an object; what nghttp3
-- answers to their binding; and whether each could be tracked.
pub record Opening : Type 0 where
  pub control : Option (ℕ × ℕ)
  pub qpack_enc : Option (ℕ × ℕ)
  pub qpack_dec : Option (ℕ × ℕ)
  pub control_bound : Bool
  pub qpack_bound : Bool
  pub created : ℕ → Bool

-- `if (cs[i].st)`
abbrev pub opened : Option (ℕ × ℕ) → List ℕ
opened none = []
opened (some (id, st)) = st ∷ []

-- The loop that frees the streams that were opened, the first first.
pub free_opened : Opening → Session → Session
free_opened w session = record session {
  freed = opened w.qpack_dec ++ opened w.qpack_enc ++ opened w.control ++ session.freed;
}

-- track_stream whose answer is not looked at: an object that is not tracked stays with nobody.
pub track_control : ℕ → Opening → ℕ → ℕ → Session → Session
track_control buffer_size w id st session =
    if w.created id || is_some (find id session.streams)
    then track_stream true buffer_size id st session
    else session

pub track_all : ℕ → Opening → List (ℕ × ℕ) → Session → Session
unfolding track_control
track_all buffer_size w [] session = session
track_all buffer_size w ((id, st) ∷ more) session =
    track_all buffer_size w more (track_control buffer_size w id st session)

-- `cs`, if all three streams could be opened
unfoldable pub all_opened : (control qpack_enc qpack_dec : Option (ℕ × ℕ)) → Option (List (ℕ × ℕ))
all_opened (some control) (some qpack_enc) (some qpack_dec) =
    some (control ∷ qpack_enc ∷ qpack_dec ∷ [])
all_opened _ _ _ = none

-- The answer is whether it is APR_SUCCESS.
pub create_control_streams : ℕ → Opening → Started → Started × Bool
unfolding free_opened track_all all_opened
create_control_streams buffer_size w s =
    let failed : Started × Bool =
      (record s { session = free_opened w s.session; has_ngh3 = false }, false) in
    if s.control_streams_created
    then (s, true)
    else elim (all_opened w.control w.qpack_enc w.qpack_dec) [
      | none ↦ failed
      | some cs ↦ if not w.control_bound || not w.qpack_bound then failed else (
        record s { session = track_all buffer_size w cs s.session; control_streams_created = true },
        true,
      )
    ]

-- h3_stream_response_cancel_locked and h3_stream_response_cleanup_locked for every stream
pub discard : List Stream → List Stream
discard [] = []
discard (s ∷ ss) =
    record s { response = response_cleanup (response_cancel s.response) } ∷ discard ss

-- h3_session_destroy; the list are the connections that h3q_conn_free has freed.
pub session_destroy : Option ℕ → Started × List ℕ → Started × List ℕ
unfolding discard
session_destroy qconn (s, freed) = (
  record s {
    session = free_pending (record s.session { streams = discard s.session.streams });
    has_ngh3 = false;
  },
  elim qconn [ none ↦ freed | some conn ↦ conn ∷ freed ],
)
