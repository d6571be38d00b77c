-- ===== src/Body/Serve.antt =====
-- serve_request_body of mod_http3/src/h3_filter.c, and the filters that end in it.
pub mod Moves
pub mod Order
pub mod Wanted
use mod_http3_stage.Prelude.{
  ℕ, zero, suc, ◌+◌, ◌-◌, Bool, true, false, ◌&&◌, Option, none, some, List, [], ◌∷◌, ◌++◌, ltb,
  leb, ◌==◌, if◌then◌else◌, take, drop,
}
use mod_http3_stage.State.{RequestBody, Stream}

-- ap_input_mode_t
pub data InputMode : Type 0 where
  read_bytes get_line eat_crlf speculative exhaustive init : InputMode

-- What is put at the tail of the brigade: a bucket over bytes of the body, or the end of stream.
pub data Bucket : Type 0 where
  bytes : List ℕ → Bucket
  eos : Bucket

-- memchr: the position of the first newline
unfoldable pub find_newline : List ℕ → Option ℕ
find_newline [] = none
find_newline (c ∷ cs) =
    let rest = find_newline cs in
    if c == b'\n' then some 0 else elim rest [ none ↦ none | some i ↦ some (suc i) ]

-- AP_MODE_READBYTES and AP_MODE_SPECULATIVE: `readbytes` is signed, and `none` where it is negative.
pub want_bytes : Option ℕ → ℕ → ℕ
want_bytes none avail = avail
want_bytes (some readbytes) avail =
    if ltb 0 readbytes && ltb readbytes avail then readbytes else avail

pub want_line : List ℕ → ℕ → ℕ
want_line unread avail = elim (find_newline unread) [ none ↦ avail | some i ↦ i + 1 ]

-- the number of bytes to hand out; `none` is a mode with nothing to do
pub wanted : InputMode → Option ℕ → List ℕ → ℕ → Option ℕ
unfolding want_bytes want_line
wanted read_bytes readbytes unread avail = some (want_bytes readbytes avail)
wanted speculative readbytes unread avail = some (want_bytes readbytes avail)
wanted get_line readbytes unread avail = some (want_line unread avail)
wanted exhaustive readbytes unread avail = some avail
wanted eat_crlf readbytes unread avail = none
wanted init readbytes unread avail = none

-- `request_body_offset += want`, and the end of stream behind the last byte
pub advance : ℕ → List Bucket → RequestBody → List Bucket × RequestBody
advance want out b =
    if leb b.len (b.offset + want)
    then (out ++ eos ∷ [], record b { offset = b.offset + want })
    else (out, record b { offset = b.offset + want })

pub hand_out : InputMode → ℕ → RequestBody → List Bucket × RequestBody
unfolding advance
hand_out speculative want b = (bytes (take want (drop b.offset b.bytes)) ∷ [], b)
hand_out mode want b = advance want (bytes (take want (drop b.offset b.bytes)) ∷ []) b

-- The buckets that are put at the tail of the brigade, and the body afterwards. The function always
-- answers APR_SUCCESS.
pub serve_request_body : InputMode → Option ℕ → RequestBody → List Bucket × RequestBody
unfolding wanted hand_out
serve_request_body mode readbytes b =
    elim (wanted mode readbytes (drop b.offset b.bytes) (b.len - b.offset)) [
      | none ↦ ([], b)
      | some want ↦ if b.len - b.offset == 0 then (eos ∷ [], b) else hand_out mode want b
    ]

-- The bytes that a brigade carries.
pub carried : List Bucket → List ℕ
carried [] = []
carried (bytes bs ∷ out) = bs ++ carried out
carried (eos ∷ out) = carried out

-- A handler that reads the body by a sequence of calls, each with its mode and byte count.
pub serve_all : List (InputMode × Option ℕ) → RequestBody → List Bucket × RequestBody
serve_all [] b = ([], b)
serve_all ((mode, readbytes) ∷ calls) b =
    let (out, b') = serve_request_body mode readbytes b in
    let (rest, b'') = serve_all calls b' in (out ++ rest, b'')
