-- ===== src/State.antt =====
-- The structures that the components share: h3_stream, h3_session and h3_response_chunk of
-- mod_http3/include/h3_session.h and mod_http3/src/h3_session.c. A flag is a `Bool`; a pointer that
-- may be NULL is an `Option`; a QUIC stream object and a chunk are named by their addresses.
use mod_http3_stage.Prelude.{ℕ, Bool, Option, List}
use mod_http3_stage.Config.Defs.{Text}

-- request_body and its counters. `bytes` are the bytes written so far to the buffer of `capacity`
-- bytes.
pub record RequestBody : Type 0 where
  pub bytes : List ℕ
  pub len : ℕ
  pub offset : ℕ
  pub capacity : ℕ
  pub overflow : Bool

-- h3_response_chunk. The list that holds the chunks stands for the `next` pointers.
pub record Chunk : Type 0 where
  pub addr : ℕ
  pub len : ℕ
  pub acked : ℕ
  pub bytes : List ℕ

-- The response queue of a stream: `chunks` is what can be reached from `response_head`.
pub record Response : Type 0 where
  pub chunks : List Chunk
  pub tail : Option ℕ
  pub submit_chunk : Option ℕ
  pub submit_offset : ℕ
  pub buffered : ℕ
  pub len : ℕ
  pub buffer_limit : ℕ
  pub submitted : Bool
  pub complete : Bool
  pub cancelled : Bool

pub record Stream : Type 0 where
  pub stream_id : ℕ
  pub qstream : Option ℕ
  pub done : Bool
  pub write_blocked : Bool
  pub is_bidi : Bool
  pub headers_complete : Bool
  pub dispatched : Bool
  pub worker_done : Bool
  pub body_complete : Bool
  pub body_truncated : Bool
  pub body : RequestBody
  pub method : Option Text
  pub scheme : Option Text
  pub authority : Option Text
  pub path : Option Text
  pub headers : Option (List (Text × Text))
  pub response : Response
