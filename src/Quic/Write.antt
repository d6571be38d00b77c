-- ===== src/Quic/Write.antt =====
-- Writing to and reading from a QUIC stream: mod_http3/src/quic/h3q_stream.c. What OpenSSL answers to
-- each call comes as an argument.
pub mod Laws
use mod_http3_stage.Prelude.{
  ℕ, zero, suc, ◌+◌, ◌*◌, ◌/◌, Bool, true, false, not, ◌&&◌, ◌||◌, Option, none, some, List, [],
  ◌∷◌, ltb, ◌==◌, if◌then◌else◌,
}

-- SSL_write_ex: some of the bytes accepted, or an error, which may say that it wants to write.
pub data Written : Type 0 where
  wrote : ℕ → Written
  want_write failed : Written

-- h3q_write_result, and whether the stream was concluded
pub record WriteResult : Type 0 where
  pub accepted : ℕ
  pub blocked : Bool
  pub broken : Bool
  pub concluded : Bool

-- the sum of the lengths, which are below 2 ^ 64 together
pub expected : List ℕ → ℕ
expected [] = 0
expected (len ∷ lens) = len + expected lens

-- The loop over the vectors, of the lengths given; `ssl n len` is the answer of SSL_write_ex when `n`
-- bytes were accepted before.
unfoldable pub write_loop : (ℕ → ℕ → Written) → List ℕ → WriteResult → WriteResult
write_loop ssl [] res = res
write_loop ssl (len ∷ lens) res = elim (ssl res.accepted len) [
  | want_write ↦ record res { blocked = true }
  | failed ↦ record res { broken = true }
  | wrote w ↦
      let next = record res { accepted = res.accepted + w } in
      let rest = write_loop ssl lens next in
      if ltb w len then record next { blocked = true } else rest
]

-- h3q_stream_write
unfoldable pub stream_write : (ℕ → ℕ → Written) → List ℕ → Bool → WriteResult
unfolding write_loop expected
stream_write ssl lens fin =
    let res =
      write_loop ssl lens
        (record { accepted = 0; blocked = false; broken = false; concluded = false }) in
    record res {
      concluded = fin && not res.blocked && not res.broken && res.accepted == expected lens;
    }

-- SSL_get_stream_read_state and SSL_get_stream_write_state
pub data StreamState : Type 0 where
  none_state ok wrong_dir finished reset_local reset_remote conn_closed : StreamState

abbrev pub is_finished : StreamState → Bool
is_finished finished = true
is_finished _ = false

abbrev pub is_reset_remote : StreamState → Bool
is_reset_remote reset_remote = true
is_reset_remote _ = false

abbrev pub is_reset_local : StreamState → Bool
is_reset_local reset_local = true
is_reset_local _ = false

abbrev pub is_conn_closed : StreamState → Bool
is_conn_closed conn_closed = true
is_conn_closed _ = false

-- h3q_stream_is_read_finished: `read_finished` and `write_finished`
pub is_read_finished : StreamState → StreamState → Bool × Bool
is_read_finished rstate write_state =
    let wstate =
      if not (is_conn_closed rstate) && not (is_reset_remote rstate)
      then write_state
      else finished in
    (
      is_finished rstate || is_reset_remote rstate || is_conn_closed rstate,
      is_finished wstate || is_reset_local wstate,
    )

-- SSL_read_ex: bytes, or an error, which may be the end of the stream
pub data ReadAnswer : Type 0 where
  got : ℕ → ReadAnswer
  zero_return read_error : ReadAnswer

-- h3q_stream_read: the bytes read when it returns 1, and `fin`
pub stream_read : ReadAnswer → Option ℕ × Bool
stream_read (got nread) = if ltb 0 nread then (some nread, false) else (none, true)
stream_read zero_return = (none, true)
stream_read read_error = (none, false)

-- h3q_engine_want of mod_http3/src/quic/h3q.c: the wait in milliseconds, at most the one asked for;
-- the timer of OpenSSL is in seconds and microseconds, `none` when there is none.
pub want_timeout : Bool → Option (ℕ × ℕ) → ℕ → ℕ
want_timeout has_listener timer timeout_ms =
    if not has_listener
    then 1000
    else let shorter : ℕ = elim timer [
      | none ↦ timeout_ms
      | some (tv_sec, tv_usec) ↦
          if ltb (tv_sec * 1000 + tv_usec / 1000) timeout_ms
          then tv_sec * 1000 + tv_usec / 1000
          else timeout_ms
    ] in
      if ltb shorter 1 then 1 else shorter
