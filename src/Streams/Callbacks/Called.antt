-- ===== src/Streams/Callbacks/Called.antt =====
-- What each nghttp3 callback returns.
use mod_http3_stage.Prelude.{ℕ, ◌≤◌, ◌^◌, ◌≡◌, refl, Option, none, some, List}
use mod_http3_stage.State.{Stream}
use mod_http3_stage.Body.Receive.Laws.{IsBody}
use mod_http3_stage.Body.Receive.Whole.{on_recv_data_total}
use mod_http3_stage.ResponseQueue.{response_ack}
use mod_http3_stage.Streams.{
  recv_header, reset_stream, Event, headers_begin, header, headers_end, body_data, acked,
  peer_stops, peer_resets, closes, callback,
}
use mod_http3_stage.Streams.Callbacks.{
  unmoved, stop_sending-Passes, stream_close-Passes, begin_headers-Passes, end_headers-Passes,
  recv_header-HeaderOf, HeaderOf, Passes, IsObject,
}

module _ (limit : ℕ) where
  pub record Called (s : Stream) (pf : List ℕ) (o : Option (Stream × List ℕ)) : Type 0 where
    pub stream : Stream
    pub pending : List ℕ
    pub returned : o ≡ some (stream, pending)
    pub passes : Passes limit s pf stream pending

  of_header :
      (s : Stream) (pf : List ℕ) (o : Option Stream)
      → HeaderOf limit s pf o
      → Called s pf (elim o [ none ↦ some (s, pf) | some s' ↦ some (s', pf) ])
  of_header s pf none h = record {
    stream = s;
    pending = pf;
    returned = refl;
    passes = unmoved limit s s pf refl refl refl refl refl (λ v. v);
  }
  of_header s pf (some s') h = record { stream = s'; pending = pf; returned = refl; passes = h }

  pub callback-Called :
      (event : Event) (s : Stream) (pf : List ℕ)
      → limit ≤ 2 ^ 30
      → IsObject limit event
      → IsBody limit s.body
      → Called s pf (callback limit event s pf)
  unfolding callback
  callback-Called headers_begin s pf small o b = record {
    stream = _;
    pending = _;
    returned = refl;
    passes = begin_headers-Passes limit s pf;
  }
  callback-Called (header t name value) s pf small o b =
      of_header s pf (recv_header t name value s) (recv_header-HeaderOf limit t name value s pf)
  callback-Called (headers_end fin) s pf small o b = record {
    stream = _;
    pending = _;
    returned = refl;
    passes = end_headers-Passes limit fin s pf;
  }
  callback-Called (body_data chunk) s pf small o b =
      let (body, e, v) = on_recv_data_total limit chunk s small o b in
      rw (e, callback)
        (record {
          stream = record s { body = body };
          pending = pf;
          returned = refl;
          passes = unmoved limit s (record s { body = body }) pf refl refl refl refl refl (λ _. v);
        })
  callback-Called (acked datalen) s pf small o b = record {
    stream = _;
    pending = _;
    returned = refl;
    passes =
        unmoved limit s (record s { response = (response_ack datalen s.response).0 }) pf refl refl
          refl refl refl (λ v. v);
  }
  callback-Called peer_stops s pf small o b = record {
    stream = _;
    pending = _;
    returned = refl;
    passes = stop_sending-Passes limit s pf;
  }
  callback-Called peer_resets s pf small o b = record {
    stream = _;
    pending = _;
    returned = refl;
    passes = unmoved limit s (reset_stream s) pf refl refl refl refl refl (λ v. v);
  }
  callback-Called closes s pf small o b = record {
    stream = _;
    pending = _;
    returned = refl;
    passes = stream_close-Passes limit s pf;
  }
