-- ===== src/Requests.antt =====
-- The head of a response on its way to nghttp3: is_connection_specific, build_response_nva,
-- submit_response_nva and h3_response_start of mod_http3/src/h3_request.c. How httpd compares names and
-- finds tokens, and what nghttp3 answers, are parameters.
pub mod Head
pub mod Worker
use mod_http3_stage.Prelude.{
  ℕ, zero, suc, ◌-◌, Bool, true, false, not, ◌&&◌, ◌||◌, Option, none, some, List, [], ◌∷◌, ◌==◌,
  if◌then◌else◌, is_some,
}
use mod_http3_stage.Config.Defs.{Text}
use mod_http3_stage.State.{Response}
use mod_http3_stage.ResponseQueue.{response_cancel}

-- apr_table_entry_t: a key or a value may be NULL
pub record Entry : Type 0 where
  pub key : Option Text
  pub val : Option Text

-- The names of is_connection_specific
pub data Hop : Type 0 where
  connection keep_alive proxy_connection transfer_encoding upgrade te : Hop

-- `same_name hop k` is `!ap_cstr_casecmp(k, hop)`, and `has_token conn_hdr k` is ap_find_token.
module _ (same_name : Hop → Text → Bool) (has_token : Text → Text → Bool) where
  pub is_connection_specific : Text → Bool
  is_connection_specific k =
      same_name connection k
      || same_name keep_alive k
      || same_name proxy_connection k
      || same_name transfer_encoding k
      || same_name upgrade k
      || same_name te k

  pub starts_with_colon : Text → Bool
  starts_with_colon [] = false
  starts_with_colon (c ∷ cs) = c == b':'

  -- `conn_hdr && ap_find_token(dst_pool, conn_hdr, k)`
  pub named_in : Option Text → Text → Bool
  named_in none k = false
  named_in (some conn_hdr) k = has_token conn_hdr k

  -- the field that an entry becomes, if it is not skipped
  pub field_of : Option Text → Entry → Option (Text × Text)
  unfolding is_connection_specific starts_with_colon named_in
  field_of conn_hdr entry = elim entry.key [
    | none ↦ none
    | some k ↦ elim entry.val [
      | none ↦ none
      | some v ↦
          if starts_with_colon k
          then none
          else if is_connection_specific k || named_in conn_hdr k
          then none
          else some (k, v)
    ]
  ]

  -- the loop over the table, with `room` places left in the array
  pub fill_fields : ℕ → Option Text → List Entry → List (Text × Text)
  unfolding field_of
  fill_fields zero conn_hdr entries = []
  fill_fields (suc room) conn_hdr [] = []
  fill_fields (suc room) conn_hdr (entry ∷ entries) = elim (field_of conn_hdr entry) [
    | none ↦ fill_fields (suc room) conn_hdr entries
    | some field ↦ field ∷ fill_fields room conn_hdr entries
  ]

  -- build_response_nva behind its choice of the headers and the status: the status first. `headers` is NULL for `none`; `conn_hdr` is its field
  -- "Connection".
  pub build_response_nva : ℕ → Text → Text → Option Text → Option (List Entry) → List (Text × Text)
  unfolding fill_fields
  build_response_nva nva_cap status_name status conn_hdr none = (status_name, status) ∷ []
  build_response_nva nva_cap status_name status conn_hdr (some entries) =
      (status_name, status) ∷ fill_fields (nva_cap - 1) conn_hdr entries

-- ap_bucket_response; a status of 0 is not set
pub record Resp : Type 0 where
  pub headers : Option (List Entry)
  pub status : ℕ

-- `hdrs`: `h3ctx->resp->headers`, if they are there, before `r->headers_out`
pub chosen_headers : Option Resp → Option (List Entry) → Option (List Entry)
chosen_headers none headers_out = headers_out
chosen_headers (some resp) headers_out = if is_some resp.headers then resp.headers else headers_out

pub chosen_status : Option Resp → ℕ → ℕ
chosen_status none status = status
chosen_status (some resp) status = if resp.status == 0 then status else resp.status

-- build_response_nva from its start: `connection_of` is apr_table_get of "Connection", `print` the
-- format `%d`.
pub response_nva :
    (same_name : Hop → Text → Bool) (has_token : Text → Text → Bool)
    (connection_of : List Entry → Option Text) (print : ℕ → Text)
    → ℕ
    → Text
    → Option Resp
    → Option (List Entry)
    → ℕ
    → List (Text × Text)
unfolding chosen_headers chosen_status
response_nva same_name has_token connection_of print nva_cap status_name resp headers_out status =
    let hdrs = chosen_headers resp headers_out in
    let conn_hdr : Option Text = elim hdrs [ none ↦ none | some entries ↦ connection_of entries ] in
    build_response_nva same_name has_token nva_cap status_name (print (chosen_status resp status))
      conn_hdr hdrs

-- What submit_response_nva returns.
pub data Submitted : Type 0 where
  success econnaborted egeneral : Submitted

-- The session as it is found under the mutex, and whether nghttp3 takes the response.
pub record Attempt : Type 0 where
  pub aborted : Bool
  pub ngh3_dead : Bool
  pub ngh3 : Bool
  pub accepts : Bool

-- submit_response_nva: its answer, whether nghttp3_conn_submit_response was called, and the response
-- afterwards.
pub submit_response_nva : Attempt → Response → Submitted × Bool × Response
submit_response_nva a r =
    if r.submitted
    then (success, false, r)
    else if r.cancelled || a.aborted || a.ngh3_dead || not a.ngh3
    then (econnaborted, false, r)
    else if a.accepts
    then (success, true, record r { submitted = true })
    else (egeneral, true, response_cancel r)

-- the calls of nghttp3_conn_submit_response that a sequence of attempts makes
pub submit_all : List Attempt → Response → ℕ × Response
submit_all [] r = (0, r)
submit_all (a ∷ attempts) r =
    let (answer, called, r') = submit_response_nva a r in
    let (calls, last) = submit_all attempts r' in (if called then suc calls else calls, last)
