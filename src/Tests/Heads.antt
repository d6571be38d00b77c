-- ===== src/Tests/Heads.antt =====
-- The theorems on response heads, on a small table of headers.
use mod_http3_stage.Prelude.{
  ◌-◌, ◌≤◌, ◌≡◌, Bool, true, false, none, some, List, [], ◌∷◌, ◌==◌, arith, take, length,
}
use mod_http3_stage.Config.Defs.{Text}
use mod_http3_stage.Requests.{Entry, Hop, build_response_nva, Attempt, submit_all}
use mod_http3_stage.Requests.Head.{sendable, build_response_nva_lem, submit_all_once}
use mod_http3_stage.Tests.Bodies.{response}

-- "Connection" is the name that is 1, and the token of a header that is its first byte.
abbrev same_name : Hop → Text → Bool
same_name Hop.connection (c ∷ []) = c == 1
same_name hop k = false

abbrev has_token : Text → Text → Bool
has_token (c ∷ cs) (k ∷ ks) = c == k
has_token _ _ = false

abbrev table : List Entry
table =
    record { key = some (1 ∷ []); val = some (7 ∷ []) }
    ∷ record { key = some (7 ∷ []); val = some (9 ∷ []) }
    ∷ record { key = some (8 ∷ []); val = some (9 ∷ []) }
    ∷ record { key = none; val = some (9 ∷ []) }
    ∷ []

build_response_nva_lem_example :
    (build_response_nva same_name has_token 64 (5 ∷ []) (6 ∷ []) (some (7 ∷ [])) (some table)
      ≡ (5 ∷ [], 6 ∷ []) ∷ take (64 - 1) (sendable same_name has_token (some (7 ∷ [])) table))
    × (length
          (build_response_nva same_name has_token 64 (5 ∷ []) (6 ∷ []) (some (7 ∷ [])) (some table))
        ≤ 64)
build_response_nva_lem_example =
    build_response_nva_lem same_name has_token 64 (5 ∷ []) (6 ∷ []) (some (7 ∷ [])) table
      (omega arith)

abbrev attempt : Attempt
attempt = record { aborted = false; ngh3_dead = false; ngh3 = true; accepts = true }

submit_all_once_example : (submit_all (attempt ∷ attempt ∷ []) response).0 ≤ 1
submit_all_once_example = submit_all_once (attempt ∷ attempt ∷ []) response
