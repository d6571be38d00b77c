-- ===== src/Tests/Responses.antt =====
-- The theorems on the filters, the hooks and the worker.
use mod_http3_stage.Prelude.{
  ◌+◌, ◌≡◌, refl, Bool, true, false, none, some, List, [], ◌∷◌, ◌++◌, arith, ◌==◌, if◌then◌else◌,
}
use mod_http3_stage.Config.Defs.{Text, ServerConf, create_server_config}
use mod_http3_stage.Filters.{
  OutBucket, data_bucket, end_of_stream, response_bucket, Made, ok, filter_out_proto, out_loop,
}
use mod_http3_stage.Filters.Output.{
  appended, completions, data_of, ends_of, StartsFirst, filter_out_whole, out_loop_starts,
}
use mod_http3_stage.Hooks.{Request, fixups, lacks_listener}
use mod_http3_stage.Hooks.AltSvc.{read_header, read_number, alt_svc_round_trip}
use mod_http3_stage.Requests.Worker.{content_length, headers_in}
use mod_http3_stage.Requests.Worker.Length.{get, content_length_counts}
use mod_http3_stage.Tests.Bodies.{stream}

abbrev brigade : List OutBucket
brigade =
    response_bucket 200
    ∷ data_bucket (some (1 ∷ 2 ∷ []))
    ∷ data_bucket (some (3 ∷ []))
    ∷ end_of_stream
    ∷ []

abbrev made : Made
made = record { calls = []; resp = none }

filter_out_whole_example :
    ((filter_out_proto (λ c cs. true) true false true brigade made).1 ≡ ok)
    × (appended (filter_out_proto (λ c cs. true) true false true brigade made).0.calls
        ≡ appended [] ++ data_of brigade)
    × (completions (filter_out_proto (λ c cs. true) true false true brigade made).0.calls
        ≡ completions [] + ends_of brigade)
filter_out_whole_example = filter_out_whole (λ c cs. true) brigade made (λ c cs. refl) tt

out_loop_starts_example : StartsFirst (out_loop (λ c cs. false) true brigade made).0.calls
out_loop_starts_example = out_loop_starts (λ c cs. false) true brigade made tt

abbrev conf : ServerConf
conf = record create_server_config {
  cert_path = some [];
  key_path = some [];
  port = 8443;
  alt_svc_max_age = 86400;
}

abbrev request : Request
request = record {
  is_h3 = false;
  is_initial = true;
  has_main = false;
  https = false;
  alt_svc = none;
  proto_num = 1001;
  stream = none;
  handler_is_status = false;
  is_get = true;
  h3_filters = 0;
}

alt_svc_round_trip_example :
    (read_header
        (fixups (some conf) (record request { is_initial = true; alt_svc = none })).0.alt_svc
      ≡ some (8443, 86400))
    × ((fixups
          (some conf)
          (record request { is_initial = true; alt_svc = some (1 ∷ []) })).0.alt_svc
        ≡ some (1 ∷ []))
unfolding lacks_listener
alt_svc_round_trip_example =
    alt_svc_round_trip conf request (1 ∷ []) refl refl (omega arith) (omega arith)

abbrev same : Text → Text → Bool
same [] [] = true
same [] (d ∷ ds) = false
same (c ∷ cs) [] = false
same (c ∷ cs) (d ∷ ds) = if c == d then same cs ds else false

content_length_counts_example :
    (text : Text) × (get same content_length (headers_in same stream) ≡ some text)
    × (read_number text 0 ≡ (3, []))
content_length_counts_example = content_length_counts same stream refl (omega arith) (omega arith)
