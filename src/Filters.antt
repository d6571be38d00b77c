-- ===== src/Filters.antt =====
-- The filters of mod_http3/src/h3_filter.c that a worker runs: h3_filter_out_proto, which turns the
-- buckets of a response into calls on its stream, and h3_filter_in_proto with input_filter_eos. What
-- httpd and the functions they call answer is a parameter.
pub mod Output
use mod_http3_stage.Prelude.{
  ℕ, Bool, true, false, not, ◌&&◌, ◌||◌, Option, none, some, List, [], ◌∷◌, ◌++◌, if◌then◌else◌,
}
use mod_http3_stage.State.{RequestBody}
use mod_http3_stage.Body.Serve.{
  InputMode, read_bytes, get_line, Bucket, bytes, eos, serve_request_body,
}

-- A bucket of a brigade: an error, a response head, data with what apr_bucket_read answers (`none` is a
-- failure), and metadata.
pub data OutBucket : Type 0 where
  error_bucket : OutBucket
  response_bucket : ℕ → OutBucket
  data_bucket : Option (List ℕ) → OutBucket
  end_of_stream flush other_metadata : OutBucket

-- ap_send_error_response, h3_response_start, h3_stream_response_append, h3_stream_response_complete and
-- capture_body_bucket
pub data Call : Type 0 where
  sends_error starts completes : Call
  appends : List ℕ → Call
  captures : Option (List ℕ) → Call

-- The calls made, the latest first, and `ctx->resp`.
pub record Made : Type 0 where
  pub calls : List Call
  pub resp : Option ℕ

pub data Status : Type 0 where
  ok passed_on failed : Status

abbrev pub with_call : Call → Made → Made
with_call c m = record m { calls = c ∷ m.calls }

-- `answers c cs` says that the call `c`, after the calls `cs`, returns APR_SUCCESS.
module _ (answers : Call → List Call → Bool) where
  -- A call, whose failure ends the filter, and what follows it.
  abbrev pub checked : Call → Made → (Made → Made × Status) → Made × Status
  checked c m next = elim (answers c m.calls) [
    | true ↦ next (with_call c m)
    | false ↦ (with_call c m, failed)
  ]

  -- the data that was read, if it is not empty
  abbrev pub append_data : Option (List ℕ) → Made → (Made → Made × Status) → Made × Status
  append_data none m next = (m, failed)
  append_data (some []) m next = next m
  append_data (some (b ∷ bs)) m next = checked (appends (b ∷ bs)) m next

  -- The loop over the brigade; `streaming` is `ctx->streaming`.
  pub out_loop : Bool → List OutBucket → Made → Made × Status
  out_loop streaming [] m = (m, ok)
  out_loop streaming (error_bucket ∷ bs) m = (with_call sends_error m, ok)
  out_loop true (response_bucket head ∷ bs) m =
      checked starts (record m { resp = some head }) (out_loop true bs)
  out_loop false (response_bucket head ∷ bs) m = out_loop false bs (record m { resp = some head })
  out_loop true (data_bucket read ∷ bs) m =
      checked starts m (λ m'. append_data read m' (out_loop true bs))
  out_loop false (data_bucket read ∷ bs) m = checked (captures read) m (out_loop false bs)
  out_loop true (end_of_stream ∷ bs) m =
      checked starts m (λ m'. out_loop true bs (with_call completes m'))
  out_loop true (flush ∷ bs) m = checked starts m (out_loop true bs)
  out_loop false (end_of_stream ∷ bs) m = out_loop false bs m
  out_loop false (flush ∷ bs) m = out_loop false bs m
  out_loop streaming (other_metadata ∷ bs) m = out_loop streaming bs m

  -- h3_filter_out_proto; a subrequest has `f->r->main`
  pub filter_out_proto : Bool → Bool → Bool → List OutBucket → Made → Made × Status
  unfolding out_loop
  filter_out_proto has_ctx is_subrequest streaming bs m =
      if not has_ctx || is_subrequest then (m, passed_on) else out_loop streaming bs m

-- What h3_filter_in_proto does: success with the brigade, APR_EOF, or the next filter's turn.
pub data InStatus : Type 0 where
  served : List Bucket → InStatus
  end_of_file asks_next : InStatus

abbrev pub reads_or_lines : InputMode → Bool
reads_or_lines read_bytes = true
reads_or_lines get_line = true
reads_or_lines _ = false

-- input_filter_eos, on a brigade
pub input_filter_eos : InputMode → Bool → List Bucket → InStatus
input_filter_eos mode has_next [] =
    if reads_or_lines mode then served (eos ∷ []) else if has_next then asks_next else end_of_file
input_filter_eos mode has_next (b ∷ bs) =
    if reads_or_lines mode then served (b ∷ bs) else if has_next then asks_next else end_of_file

-- h3_filter_in_proto: the request body is there if the request has a stream.
pub filter_in_proto :
    InputMode → Bool → Option ℕ → List Bucket → Option RequestBody → InStatus × Option RequestBody
unfolding input_filter_eos
filter_in_proto mode has_next readbytes bb none = (input_filter_eos mode has_next bb, none)
filter_in_proto mode has_next readbytes bb (some body) =
    let (out, body') = serve_request_body mode readbytes body in (served (bb ++ out), some body')
