-- ===== src/Body/Receive.antt =====
-- on_recv_data of mod_http3/src/h3_callbacks.c.
pub mod Laws
pub mod Whole
use mod_http3_stage.Prelude.{
  ℕ, zero, suc, ◌+◌, ◌%◌, ◌^◌, Bool, true, false, ◌||◌, not, Option, none, some, List, [], ◌∷◌,
  ◌++◌, ltb, ◌==◌, if◌then◌else◌, length,
}
use mod_http3_stage.Config.Defs.{body_buf_init_cap}
use mod_http3_stage.State.{RequestBody, Stream}
use mod_http3_stage.Body.Grow.{grow}

-- `size_t` addition
abbrev pub add_size : ℕ → ℕ → ℕ
add_size a b = (a + b) % 2 ^ 64

-- `capacity ? capacity : H3_BODY_BUF_INIT_CAP`
abbrev pub start_cap : ℕ → ℕ
start_cap zero = body_buf_init_cap
start_cap (suc n) = suc n

-- The capacity that a buffer of `capacity` bytes is given for `needed` bytes; `none` is a loop that
-- does not end.
pub new_capacity : ℕ → ℕ → ℕ → Option ℕ
new_capacity limit capacity needed = elim (grow 64 (start_cap capacity) needed) [
  | none ↦ none
  | some cap ↦ some (if ltb limit cap then limit else cap)
]

-- `if (needed > capacity) { ... }`: the body with its buffer grown, its bytes copied
pub reserve : ℕ → ℕ → RequestBody → Option RequestBody
reserve limit needed b =
    if ltb b.capacity needed
    then elim (new_capacity limit b.capacity needed) [
      | none ↦ none
      | some cap ↦ some (record b { capacity = cap })
    ]
    else some b

-- memcpy behind the bytes received; `none` is a write past the buffer
pub write_body : List ℕ → RequestBody → Option RequestBody
write_body chunk b =
    if ltb b.capacity (b.len + length chunk)
    then none
    else some (record b { bytes = b.bytes ++ chunk; len = add_size b.len (length chunk) })

-- from the test of `request_body_overflow` on
pub receive : ℕ → List ℕ → RequestBody → Option RequestBody
receive limit chunk b =
    if b.overflow
    then some b
    else if ltb limit (add_size b.len (length chunk))
    then some (record b { overflow = true })
    else elim (reserve limit (add_size b.len (length chunk)) b) [
      | none ↦ none
      | some b' ↦ write_body chunk b'
    ]

-- The callback: `limit` is `h3_max_request_body_size`, `none` in the result is a fault. A NULL stream
-- and NULL data are `none`. The callback always answers 0.
pub on_recv_data : ℕ → Option (List ℕ) → Option Stream → Option (Option Stream)
on_recv_data limit chunk none = some none
on_recv_data limit none (some s) = some (some s)
on_recv_data limit (some chunk) (some s) =
    if not s.is_bidi || length chunk == 0
    then some (some s)
    else elim (receive limit chunk s.body) [
      | none ↦ none
      | some b ↦ some (some (record s { body = b }))
    ]

-- The pieces of a request body as they arrive.
pub receive_all : ℕ → List (List ℕ) → RequestBody → Option RequestBody
receive_all limit [] b = some b
receive_all limit (p ∷ ps) b = elim (receive limit p b) [
  | none ↦ none
  | some b' ↦ receive_all limit ps b'
]
