-- ===== src/Body/Capture.antt =====
-- capture_body_bucket of mod_http3/src/h3_filter.c: the response body that is kept whole when
-- H3MaxResponseBodySize is set. `apr_bucket_read` is a parameter: what it answers is `read`.
pub mod Keep
pub mod Whole
use mod_http3_stage.Prelude.{
  ℕ, zero, suc, ◌+◌, ◌-◌, ◌%◌, ◌^◌, Bool, true, false, ◌||◌, Option, none, some, List, [], ◌∷◌,
  ◌++◌, ltb, ◌==◌, if◌then◌else◌, length,
}
use mod_http3_stage.Config.Defs.{body_buf_init_cap}
use mod_http3_stage.Body.Grow.{grow, double}

-- The fields of h3_conn_ctx_t for the buffered response.
pub record Heap : Type 0 where
  pub bytes : List ℕ
  pub len : ℕ
  pub cap : ℕ
  pub response_too_large : Bool

-- `cap ? cap * 2 : H3_BODY_BUF_INIT_CAP`
abbrev pub first_cap : ℕ → ℕ
first_cap zero = body_buf_init_cap
first_cap (suc n) = double (suc n)

-- memcpy behind the bytes kept; `none` is a write past the buffer
pub put : List ℕ → ℕ → Heap → Option Heap
put chunk new_len h =
    if ltb h.cap (h.len + length chunk)
    then none
    else some (record h { bytes = h.bytes ++ chunk; len = new_len })

pub make_room : ℕ → Heap → Option Heap
make_room new_len h =
    if ltb h.cap new_len
    then elim (grow 64 (first_cap h.cap) new_len) [
      | none ↦ none
      | some cap ↦ some (record h { cap = cap })
    ]
    else some h

-- The bytes of a bucket, behind the limit test. `size_t` subtraction wraps.
pub keep : ℕ → List ℕ → Heap → Option Heap
keep limit chunk h =
    if ltb limit h.len || ltb ((2 ^ 64 + limit - h.len) % 2 ^ 64) (length chunk)
    then some (record h { response_too_large = true })
    else elim (make_room ((h.len + length chunk) % 2 ^ 64) h) [
      | none ↦ none
      | some h' ↦ put chunk ((h.len + length chunk) % 2 ^ 64) h'
    ]

-- `read` is `none` where the bucket could not be read or has no data. The function always answers
-- APR_SUCCESS; `none` is a fault.
pub capture_body_bucket : ℕ → Option (List ℕ) → Heap → Option Heap
capture_body_bucket limit none h = some h
capture_body_bucket limit (some chunk) h =
    if h.response_too_large || length chunk == 0 then some h else keep limit chunk h

pub capture_all : ℕ → List (Option (List ℕ)) → Heap → Option Heap
capture_all limit [] h = some h
capture_all limit (r ∷ rs) h = elim (capture_body_bucket limit r h) [
  | none ↦ none
  | some h' ↦ capture_all limit rs h'
]
