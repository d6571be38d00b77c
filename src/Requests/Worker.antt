-- ===== src/Requests/Worker.antt =====
-- stream_worker of mod_http3/src/h3_request.c between its start and its end: the request that it makes
-- of a stream, and the response that it leaves. What httpd answers comes as arguments; how a worker
-- gives up or returns is in `Streams.Dispatch`.
pub mod Length
use mod_http3_stage.Prelude.{
  ℕ, zero, suc, Bool, true, false, not, ◌&&◌, ◌||◌, Option, none, some, List, [], ◌∷◌, ◌++◌, ltb,
  ◌==◌, if◌then◌else◌,
}
use mod_http3_stage.Config.Defs.{Text}
use mod_http3_stage.State.{Stream}
use mod_http3_stage.Hooks.{digits}
use mod_http3_stage.Requests.{Submitted, success, econnaborted, egeneral}

abbrev pub Table : Type 0
Table = List (Text × Text)

abbrev pub host : Text
host = b'H' ∷ b'o' ∷ b's' ∷ b't' ∷ []

abbrev pub scheme : Text
scheme = b'S' ∷ b'c' ∷ b'h' ∷ b'e' ∷ b'm' ∷ b'e' ∷ []

abbrev pub content_length : Text
content_length =
    b'C' ∷ b'o' ∷ b'n' ∷ b't' ∷ b'e' ∷ b'n' ∷ b't' ∷ b'-' ∷ b'L' ∷ b'e' ∷ b'n' ∷ b'g' ∷ b't' ∷ b'h'
    ∷ []

abbrev pub get_method : Text
get_method = b'G' ∷ b'E' ∷ b'T' ∷ []

-- `h3s->method ? h3s->method : "GET"`
pub method_of : Stream → Text
method_of s = elim s.method [ none ↦ get_method | some m ↦ m ]

-- `same k k'` compares two keys as the tables of APR do.
module _ (same : Text → Text → Bool) where
  pub drop_key : Text → Table → Table
  drop_key key [] = []
  drop_key key ((k, v) ∷ t) =
      let rest = drop_key key t in if same key k then rest else (k, v) ∷ rest

  -- apr_table_setn: the first entry with the key gets the value, and the others go
  pub setn : Text → Text → Table → Table
  unfolding drop_key
  setn key val [] = (key, val) ∷ []
  setn key val ((k, v) ∷ t) =
      let rest = setn key val t in if same key k then (k, val) ∷ drop_key key t else (k, v) ∷ rest

  -- apr_table_overlap with APR_OVERLAP_TABLES_SET
  pub overlap : Table → Table → Table
  unfolding setn
  overlap t [] = t
  overlap t ((k, v) ∷ more) = overlap (setn k v t) more

  pub set_if : Text → Option Text → Table → Table
  unfolding setn
  set_if key none t = t
  set_if key (some val) t = setn key val t

  -- `r->headers_in`, which starts empty
  pub headers_in : Stream → Table
  unfolding setn overlap set_if
  headers_in s =
      let t = set_if scheme s.scheme (set_if host s.authority []) in
      let t' : Table = elim s.headers [ none ↦ t | some headers ↦ overlap t headers ] in
      if ltb 0 s.body.len then setn content_length (digits s.body.len []) t' else t'

-- What the worker lets httpd do with the request.
pub data Handled : Type 0 where
  dies : ℕ → Handled
  processed : Handled

-- `r->status` is 200 unless the request could not be parsed.
pub handle : ℕ → Bool → Handled
handle status overflow =
    if not (status == 200) then dies status else if overflow then dies 413 else processed

-- What httpd left of the response: `r->status`, the fields of h3_conn_ctx_t, and what
-- submit_response_nva and h3_stream_response_append answer.
pub record Left : Type 0 where
  pub too_large : Bool
  pub status : ℕ
  pub streaming : Bool
  pub dataheap : List ℕ
  pub submitted : Submitted
  pub appended : Submitted

-- "Response exceeded H3MaxResponseBodySize\n" has 40 bytes; its text comes as an argument.
pub record Response : Type 0 where
  pub status : ℕ
  pub body : List ℕ
  pub answer : Submitted
  pub completed : Bool

abbrev pub if_success : Submitted → Submitted → Submitted
if_success success next = next
if_success econnaborted next = econnaborted
if_success egeneral next = egeneral

-- from `int status` to h3_stream_response_complete
pub respond : List ℕ → Left → Response
respond oversized_msg l =
    let status : ℕ = if l.too_large then 500 else if l.status == 0 then 200 else l.status in
    let body : List ℕ =
      if l.too_large then oversized_msg else if l.streaming then [] else l.dataheap in
    record {
      status = status;
      body = body;
      answer = elim body [ [] ↦ l.submitted | _ ∷ _ ↦ if_success l.submitted l.appended ];
      completed = true;
    }
