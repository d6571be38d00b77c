-- ===== src/Streams/Outside/Promises.antt =====
-- What the event thread relies on outside of the module: nghttp3 offers no stream that it was asked to
-- block, and what it has to send becomes less as it is told of what was sent; OpenSSL does not accept
-- or read more than it is asked to; and the workers take steps of the threads.
use mod_http3_stage.Prelude.{
  ℕ, ◌≤◌, ◌<◌, ◌≡◌, Bool, true, false, Option, none, some, List, [], ◌∷◌, ◌==◌,
}
use mod_http3_stage.Streams.{Session}
use mod_http3_stage.Streams.Callbacks.{IsObject}
use mod_http3_stage.Streams.Dispatch.{Reaches}
use mod_http3_stage.Streams.Dispatch.Flags.{blocked_at, Quieter}
use mod_http3_stage.Streams.Outside.{offers, Calls, Outside, Live}
use mod_http3_stage.Quic.Write.{expected, got}
use mod_http3_stage.Quic.Write.Laws.{AcceptsAtMost}

abbrev pub AllCalls : ℕ → Calls → Type 0
AllCalls limit [] = Unit
AllCalls limit ((sid, event) ∷ calls) = IsObject limit event × AllCalls limit calls

module _ {W : Type 0} (o : Outside W) where
  abbrev pub tell : ℕ → ℕ → W → W
  tell sid n w = (o.add_ack_offset sid n (o.add_write_offset sid n w)).0

  -- after a write to a QUIC stream, if there is one
  abbrev pub after_write : Option ℕ → W → W
  after_write none w = w
  after_write (some st) w = (o.ssl_write st w).0

  -- `is_blocked` tells which streams nghttp3 was asked to block, and `backlog` how often it can still
  -- offer something, were nothing more read.
  pub record Promises (limit bound : ℕ) : Type 0 where
    pub is_blocked : ℕ → W → Bool
    pub backlog : W → ℕ
    pub bounded : (w : W) → backlog w < bound
    pub ack_calls : (sid n : ℕ) (w : W) → AllCalls limit (o.add_ack_offset sid n w).1
    pub read_calls : (sid n : ℕ) (fin : Bool) (w : W) → AllCalls limit (o.read_stream sid n fin w).1
    pub close_calls : (sid : ℕ) (w : W) → AllCalls limit (o.close_stream sid w).1
    pub accepts : (st : ℕ) (w : W) → AcceptsAtMost (o.ssl_write st w).1
    pub reads : (st size n : ℕ) (w : W) → (o.ssl_read st size w).1 ≡ got n → n ≤ size
    pub workers : (w : W) (session : Session) → Reaches limit session (o.workers_run w session).1
    pub workers_quiet : (w : W) (session : Session) → Quieter session (o.workers_run w session).1
    pub keep_workers :
        (x : ℕ) (w : W) (session : Session)
        → is_blocked x w ≡ true
        → is_blocked x (o.workers_run w session).0 ≡ true
    pub offered :
        (w : W) (sid : ℕ) (fin : Bool) (lens : List ℕ)
        → (o.writev_stream w).1 ≡ offers sid fin lens
        → is_blocked sid (o.writev_stream w).0 ≡ false
    pub sent :
        (w : W) (sid : ℕ) (fin : Bool) (lens : List ℕ) (via : Option ℕ)
        → (o.writev_stream w).1 ≡ offers sid fin lens
        → backlog (tell sid (expected lens) (after_write via (o.writev_stream w).0)) < backlog w
    pub held_back :
        (w : W) (sid : ℕ) (fin : Bool) (lens : List ℕ) (st n : ℕ)
        → (o.writev_stream w).1 ≡ offers sid fin lens
        → n ≤ expected lens
        → backlog (o.block_stream sid (tell sid n (after_write (some st) (o.writev_stream w).0)))
          < backlog w
    pub blocks_it : (sid : ℕ) (w : W) → is_blocked sid (o.block_stream sid w) ≡ true
    pub keep_block :
        (sid x : ℕ) (w : W) → is_blocked x w ≡ true → is_blocked x (o.block_stream sid w) ≡ true
    pub keep_unblock :
        (sid x : ℕ) (w : W)
        → (x == sid) ≡ false
        → is_blocked x w ≡ true
        → is_blocked x (o.unblock_stream sid w) ≡ true
    pub keep_writev :
        (x : ℕ) (w : W) → is_blocked x w ≡ true → is_blocked x (o.writev_stream w).0 ≡ true
    pub keep_tell :
        (sid n x : ℕ) (w : W) → is_blocked x w ≡ true → is_blocked x (tell sid n w) ≡ true
    pub keep_write :
        (st x : ℕ) (w : W) → is_blocked x w ≡ true → is_blocked x (o.ssl_write st w).0 ≡ true
    pub keep_read :
        (st size x : ℕ) (w : W)
        → is_blocked x w ≡ true
        → is_blocked x (o.ssl_read st size w).0 ≡ true
    pub keep_take :
        (sid n x : ℕ) (fin : Bool) (w : W)
        → is_blocked x w ≡ true
        → is_blocked x (o.read_stream sid n fin w).0 ≡ true
    pub keep_close :
        (sid x : ℕ) (w : W) → is_blocked x w ≡ true → is_blocked x (o.close_stream sid w).0 ≡ true
    pub keep_notice :
        (x : ℕ) (w : W) → is_blocked x w ≡ true → is_blocked x (o.submit_shutdown_notice w) ≡ true
    pub keep_shutdown : (x : ℕ) (w : W) → is_blocked x w ≡ true → is_blocked x (o.shutdown w) ≡ true
    pub keep_accept :
        (x : ℕ) (w : W) → is_blocked x w ≡ true → is_blocked x (o.accept_streams w).0 ≡ true

  -- A stream whose flag is set is one that nghttp3 was asked to block.
  abbrev pub Synced : {limit bound : ℕ} → Promises limit bound → Live W → Type 0
  Synced p l = (x : ℕ) → blocked_at x l.session ≡ true → p.is_blocked x l.outside ≡ true
