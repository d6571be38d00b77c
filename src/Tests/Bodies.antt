-- ===== src/Tests/Bodies.antt =====
-- The theorems on request and response bodies, on small buffers.
use mod_http3_stage.Prelude.{
  ℕ, ◌≡◌, refl, true, false, Option, none, some, List, [], ◌∷◌, ◌++◌, arith,
}
use mod_http3_stage.State.{RequestBody, Stream, Response}
use mod_http3_stage.Body.Receive.{receive_all}
use mod_http3_stage.Body.Receive.Laws.{IsBody, Received}
use mod_http3_stage.Body.Receive.Whole.{receive_all_whole, receive_all_too_large}
use mod_http3_stage.Body.Serve.{InputMode, read_bytes, get_line, serve_all, carried}
use mod_http3_stage.Body.Serve.Moves.{unread}
use mod_http3_stage.Body.Serve.Order.{serve_all_in_order, serve_all_complete}
use mod_http3_stage.Body.Capture.{Heap, capture_all}
use mod_http3_stage.Body.Capture.Keep.{IsHeap, Kept}
use mod_http3_stage.Body.Capture.Whole.{capture_all_whole, capture_all_too_large}

abbrev body : RequestBody
body = record { bytes = 1 ∷ 2 ∷ 3 ∷ []; len = 3; offset = 1; capacity = 8; overflow = false }

pub body-IsBody : IsBody 10 body
body-IsBody = record { count = refl; fits = omega arith; bounded = omega arith; read = omega arith }

abbrev pub response : Response
response = record {
  chunks = [];
  tail = none;
  submit_chunk = none;
  submit_offset = 0;
  buffered = 0;
  len = 0;
  buffer_limit = 16;
  submitted = false;
  complete = false;
  cancelled = false;
}

abbrev pub stream : Stream
stream = record {
  stream_id = 4;
  qstream = some 7;
  done = false;
  write_blocked = false;
  is_bidi = true;
  headers_complete = true;
  dispatched = false;
  worker_done = false;
  body_complete = false;
  body_truncated = false;
  body = body;
  method = none;
  scheme = none;
  authority = none;
  path = none;
  headers = none;
  response = response;
}

receive_all_whole_example :
    Received 10
      (receive_all 10 ((4 ∷ 5 ∷ []) ∷ (6 ∷ []) ∷ []) body)
      (1 ∷ 2 ∷ 3 ∷ 4 ∷ 5 ∷ 6 ∷ [])
      false
receive_all_whole_example =
    receive_all_whole 10 (omega arith) ((4 ∷ 5 ∷ []) ∷ (6 ∷ []) ∷ []) body body-IsBody refl
      (omega arith)

receive_all_too_large_example :
    (kept : List ℕ) × Received 10
      (receive_all 10 ((4 ∷ 5 ∷ 6 ∷ 7 ∷ []) ∷ (8 ∷ 9 ∷ 10 ∷ 11 ∷ []) ∷ []) body)
      kept
      true
receive_all_too_large_example =
    receive_all_too_large 10 (omega arith) ((4 ∷ 5 ∷ 6 ∷ 7 ∷ []) ∷ (8 ∷ 9 ∷ 10 ∷ 11 ∷ []) ∷ []) body
      (omega arith, (omega arith, tt)) body-IsBody refl (omega arith)

abbrev calls : List (InputMode × Option ℕ)
calls = (read_bytes, some 1) ∷ (get_line, none) ∷ []

serve_all_in_order_example :
    carried (serve_all calls body).0 ++ unread (serve_all calls body).1 ≡ 2 ∷ 3 ∷ []
serve_all_in_order_example = serve_all_in_order 10 calls body body-IsBody (refl, (refl, tt))

serve_all_complete_example : carried (serve_all calls body).0 ≡ 2 ∷ 3 ∷ []
serve_all_complete_example =
    serve_all_complete 10 calls body body-IsBody (refl, (refl, tt)) (omega arith)

abbrev heap : Heap
heap = record { bytes = 1 ∷ 2 ∷ []; len = 2; cap = 3; response_too_large = false }

heap-IsHeap : IsHeap 5 heap
heap-IsHeap = record {
  count = refl;
  fits = omega arith;
  within = omega arith;
  bounded = omega arith;
}

capture_all_whole_example :
    Kept 5
      (capture_all 5 (some (3 ∷ 4 ∷ []) ∷ none ∷ some (5 ∷ []) ∷ []) heap)
      (1 ∷ 2 ∷ 3 ∷ 4 ∷ 5 ∷ [])
      false
capture_all_whole_example =
    capture_all_whole 5 (omega arith) (some (3 ∷ 4 ∷ []) ∷ none ∷ some (5 ∷ []) ∷ []) heap
      heap-IsHeap refl (omega arith)

capture_all_too_large_example :
    (kept : List ℕ) × Kept 5 (capture_all 5 (some (3 ∷ 4 ∷ 5 ∷ 6 ∷ []) ∷ []) heap) kept true
capture_all_too_large_example =
    capture_all_too_large 5 (omega arith) (some (3 ∷ 4 ∷ 5 ∷ 6 ∷ []) ∷ []) heap heap-IsHeap refl
      (omega arith)
