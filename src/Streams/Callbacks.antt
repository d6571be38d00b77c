-- ===== src/Streams/Callbacks.antt =====
-- What each nghttp3 callback does to its stream and to the list of QUIC streams to free.
pub mod Called
use mod_http3_stage.Prelude.{
  ℕ, ◌+◌, ◌≤◌, ◌<◌, ◌^◌, ◌≡◌, refl, sym, ap, Bool, true, false, not, ◌&&◌, ◌||◌, Option, none, some,
  List, [], ◌∷◌, ◌++◌, arith, ◌==◌, if◌then◌else◌, one_if, count, count_some, count-append,
  Bool-cases, Option-cases, is_some, length, inl, inr,
}
use mathlib.Core.Path.{subst}
use mod_http3_stage.State.{Stream}
use mod_http3_stage.Body.Receive.Laws.{IsBody}
use mod_http3_stage.Body.Receive.Whole.{on_recv_data_total}
use mod_http3_stage.Config.Defs.{Text}
use mod_http3_stage.ResponseQueue.{response_cancel, response_ack}
use mod_http3_stage.Streams.{
  Token, method_token, scheme_token, path_token, authority_token, other, set_pseudo, begin_headers,
  recv_header, end_headers, release, stop_sending, reset_stream, stream_close, Event, headers_begin,
  header, headers_end, body_data, acked, peer_stops, peer_resets, closes, callback,
}

module _ (limit : ℕ) where
  -- A step of a callback: the stream object moves from the stream to the list or stays, and what tells
  -- whose stream it is stays.
  pub record Passes (s : Stream) (pf : List ℕ) (s' : Stream) (pf' : List ℕ) : Type 0 where
    pub moved :
        (st : ℕ) → count_some st s'.qstream + count st pf' ≡ count_some st s.qstream + count st pf
    pub same_id : s'.stream_id ≡ s.stream_id
    pub same_dispatched : s'.dispatched ≡ s.dispatched
    pub same_done : s'.worker_done ≡ s.worker_done
    pub same_blocked : s'.write_blocked ≡ s.write_blocked
    pub valid : IsBody limit s.body → IsBody limit s'.body

  pub unmoved :
      (s s' : Stream) (pf : List ℕ)
      → s'.qstream ≡ s.qstream
      → s'.stream_id ≡ s.stream_id
      → s'.dispatched ≡ s.dispatched
      → s'.worker_done ≡ s.worker_done
      → s'.write_blocked ≡ s.write_blocked
      → (IsBody limit s.body → IsBody limit s'.body)
      → Passes s pf s' pf
  unmoved s s' pf q i d w k v = record {
    moved = λ st. ap (λ o. count_some st o + count st pf) q;
    same_id = i;
    same_dispatched = d;
    same_done = w;
    same_blocked = k;
    valid = v;
  }

  release-none : (s : Stream) (pf : List ℕ) → s.qstream ≡ none → release s pf ≡ (s, pf)
  unfolding release
  release-none s pf e =
      let go : Option ℕ → Stream × List ℕ =
        λ o. elim o [ none ↦ (s, pf) | some st ↦ (record s { qstream = none }, pf ++ st ∷ []) ] in
      ap go e

  release-some :
      (s : Stream) (pf : List ℕ) (st : ℕ)
      → s.qstream ≡ some st
      → release s pf ≡ (record s { qstream = none }, pf ++ st ∷ [])
  unfolding release
  release-some s pf st e =
      let go : Option ℕ → Stream × List ℕ =
        λ o. elim o [ none ↦ (s, pf) | some st ↦ (record s { qstream = none }, pf ++ st ∷ []) ] in
      ap go e

  release-Passes : (s : Stream) (pf : List ℕ) → Passes s pf (release s pf).0 (release s pf).1
  release-Passes s pf = elim (Option-cases s.qstream) [
    | inl e ↦
        subst (λ r. Passes s pf r.0 r.1) (sym (release-none s pf e))
          (unmoved s s pf refl refl refl refl refl (λ v. v))
    | inr (st, e) ↦
        subst (λ r. Passes s pf r.0 r.1) (sym (release-some s pf st e))
          (record {
            moved = λ t.
                let a = count-append t pf (st ∷ []) in
                let b : count_some t s.qstream ≡ one_if (t == st) = ap (count_some t) e in
                omega arith;
            same_id = refl;
            same_dispatched = refl;
            same_done = refl;
            same_blocked = refl;
            valid = λ v. v;
          })
  ]

  pub stop_sending-Passes :
      (s : Stream) (pf : List ℕ) → Passes s pf (stop_sending s pf).0 (stop_sending s pf).1
  unfolding stop_sending
  stop_sending-Passes s pf =
      let r = release-Passes (record s { response = response_cancel s.response }) pf in
      record {
        moved = r.moved;
        same_id = r.same_id;
        same_dispatched = r.same_dispatched;
        same_done = r.same_done;
        same_blocked = r.same_blocked;
        valid = r.valid;
      }

  pub stream_close-Passes :
      (s : Stream) (pf : List ℕ) → Passes s pf (stream_close s pf).0 (stream_close s pf).1
  unfolding stream_close
  stream_close-Passes s pf =
      let r = release-Passes (record s { response = response_cancel s.response; done = true }) pf in
      record {
        moved = r.moved;
        same_id = r.same_id;
        same_dispatched = r.same_dispatched;
        same_done = r.same_done;
        same_blocked = r.same_blocked;
        valid = r.valid;
      }

  pub begin_headers-Passes : (s : Stream) (pf : List ℕ) → Passes s pf (begin_headers s) pf
  unfolding begin_headers
  begin_headers-Passes s pf = elim (Bool-cases (s.is_bidi && not (is_some s.headers))) [
    | inl e ↦ rw e (unmoved s (record s { headers = some [] }) pf refl refl refl refl refl (λ v. v))
    | inr e ↦ rw e (unmoved s s pf refl refl refl refl refl (λ v. v))
  ]

  either_unmoved :
      (b : Bool) (s s' : Stream) (pf : List ℕ)
      → Passes s pf s' pf
      → Passes s pf (if b then s' else s) pf
  either_unmoved true s s' pf p = p
  either_unmoved false s s' pf p = unmoved s s pf refl refl refl refl refl (λ v. v)

  pub end_headers-Passes :
      (fin : Bool) (s : Stream) (pf : List ℕ) → Passes s pf (end_headers fin s) pf
  unfolding end_headers
  end_headers-Passes fin s pf =
      either_unmoved s.is_bidi s
        (record s { headers_complete = true; body_complete = fin || s.body_complete }) pf
        (unmoved s (record s { headers_complete = true; body_complete = fin || s.body_complete }) pf
          refl refl refl refl refl (λ v. v))

  -- A header field changes its own place only.
  abbrev pub HeaderOf : Stream → List ℕ → Option Stream → Type 0
  HeaderOf s pf none = Unit
  HeaderOf s pf (some s') = Passes s pf s' pf

  named :
      (b : Bool) (s : Stream) (pf : List ℕ) (o : Option Stream)
      → HeaderOf s pf o
      → HeaderOf s pf (if b then none else o)
  named true s pf o h = tt
  named false s pf o h = h

  set_pseudo-HeaderOf :
      (t : Token) (value : Text) (s : Stream) (pf : List ℕ) → HeaderOf s pf (set_pseudo t value s)
  unfolding set_pseudo
  set_pseudo-HeaderOf method_token value s pf =
      named _ s pf (some (record s { method = some value }))
        (unmoved s _ pf refl refl refl refl refl (λ v. v))
  set_pseudo-HeaderOf scheme_token value s pf =
      named _ s pf (some (record s { scheme = some value }))
        (unmoved s _ pf refl refl refl refl refl (λ v. v))
  set_pseudo-HeaderOf path_token value s pf =
      named _ s pf (some (record s { path = some value }))
        (unmoved s _ pf refl refl refl refl refl (λ v. v))
  set_pseudo-HeaderOf authority_token value s pf =
      named _ s pf (some (record s { authority = some value }))
        (unmoved s _ pf refl refl refl refl refl (λ v. v))
  set_pseudo-HeaderOf other value s pf = named _ s pf none tt

  pub recv_header-HeaderOf :
      (t : Token) (name value : Text) (s : Stream) (pf : List ℕ)
      → HeaderOf s pf (recv_header t name value s)
  unfolding recv_header
  recv_header-HeaderOf method_token name value s pf = set_pseudo-HeaderOf method_token value s pf
  recv_header-HeaderOf scheme_token name value s pf = set_pseudo-HeaderOf scheme_token value s pf
  recv_header-HeaderOf path_token name value s pf = set_pseudo-HeaderOf path_token value s pf
  recv_header-HeaderOf authority_token name value s pf =
      set_pseudo-HeaderOf authority_token value s pf
  recv_header-HeaderOf other name value s pf =
      elim s.headers
        as (λ h. HeaderOf s pf (elim h [
          | none ↦ some s
          | some headers ↦ some (record s { headers = some (headers ++ (name, value) ∷ []) })
        ])) [
          | none ↦ unmoved s s pf refl refl refl refl refl (λ v. v)
          | some headers ↦
              unmoved s (record s { headers = some (headers ++ (name, value) ∷ []) }) pf refl refl
                refl refl refl (λ v. v)
        ]

  -- Data comes in pieces that an object can hold.
  abbrev pub IsObject : Event → Type 0
  IsObject (body_data chunk) = length chunk < 2 ^ 63
  IsObject _ = Unit
