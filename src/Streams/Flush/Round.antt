-- ===== src/Streams/Flush/Round.antt =====
-- One round of the loop of flush_nghttp3 as steps of the threads.
use mod_http3_stage.Prelude.{
  ℕ, ◌≤◌, ◌<◌, ◌^◌, ◌≡◌, ◌∙◌, refl, sym, Bool, true, false, Option, none, some, List, if◌then◌else◌,
  ◌==◌, ==→eq, Bool-cases, Option-cases, inl, inr,
}
use mathlib.Core.Path.{subst}
use mod_http3_stage.Quic.Write.{stream_write, expected}
use mod_http3_stage.Quic.Write.Laws.{stream_write_bounds, stream_write_whole}
use mod_http3_stage.Streams.{Session, find}
use mod_http3_stage.Streams.Marks.{blocks, mark}
use mod_http3_stage.Streams.Dispatch.{Reaches, marks}
use mod_http3_stage.Streams.Dispatch.Flags.{blocked_at, mark_flag, mark-none}
use mod_http3_stage.Streams.Dispatch.Steps.{IsServed}
use mod_http3_stage.Streams.Outside.{offers, Outside, Live, add64, run_calls}
use mod_http3_stage.Streams.Outside.Promises.{Promises, Synced, tell}
use mod_http3_stage.Streams.Outside.Runs.{one_step, Reaches_trans, Back, called_back-Back}
use mod_http3_stage.Streams.Flush.{told, block_written, write_out, write_offered}

module _ {W : Type 0} (o : Outside W) (limit bound : ℕ) (p : Promises o limit bound)
    (small : limit ≤ 2 ^ 30) where
  told-Back :
      (sid n : ℕ) (l : Live W)
      → IsServed limit l.session
      → (b : Back limit l.session (
          run_calls limit
            (o.add_ack_offset sid n (o.add_write_offset sid n l.outside)).1
            l.session))
        × (told o limit sid n l
            ≡ some (record l { session = b.after; outside = tell o sid n l.outside }))
  unfolding told
  told-Back sid n l v =
      called_back-Back o limit bound p _ _ l small
        (p.ack_calls sid n (o.add_write_offset sid n l.outside)) v

  -- One round of the loop, which leaves less to send.
  pub record Round (w : W) (session : Session) (out : Option (Live W)) : Type 0 where
    pub next : Live W
    pub returned : out ≡ some next
    pub reaches : Reaches limit session next.session
    pub synced : Synced o p next
    pub less : p.backlog next.outside < p.backlog w

  told-Round :
      (w : W) (sid n : ℕ) (l : Live W)
      → IsServed limit l.session
      → Synced o p l
      → p.backlog (tell o sid n l.outside) < p.backlog w
      → Round w l.session (told o limit sid n l)
  told-Round w sid n l v y k =
      let (b, e) = told-Back sid n l v in
      record {
        next = record l { session = b.after; outside = tell o sid n l.outside };
        returned = e;
        reaches = b.reaches;
        synced = λ x h. p.keep_tell sid n x l.outside (y x (b.quiet x h));
        less = k;
      }

  block_flag :
      (sid x : ℕ) (session : Session) (w : W)
      → ((x : ℕ) → blocked_at x session ≡ true → p.is_blocked x w ≡ true)
      → blocked_at x (mark blocks sid session) ≡ true
      → p.is_blocked x (o.block_stream sid w) ≡ true
  block_flag sid x session w y h = elim (Bool-cases (x == sid)) [
    | inl k ↦ rw (==→eq x sid k) (p.blocks_it sid w)
    | inr n ↦ elim (Option-cases (find sid session.streams)) [
      | inl e ↦
          p.keep_block sid x w
            (y x (subst (λ t. blocked_at x t ≡ true) (mark-none blocks sid session e) h))
      | inr (s, e) ↦
          let z : blocked_at x (mark blocks sid session) ≡ blocked_at x session =
            mark_flag blocks sid x s session e ∙ rw n refl in
          p.keep_block sid x w (y x (sym z ∙ h))
    ]
  ]

  -- What is done with a write that was not broken, after nghttp3 was told of it.
  block_if :
      (w : W) (b : Bool) (sid : ℕ) (l l' : Live W)
      → Reaches limit l.session l'.session
      → Synced o p l'
      → blocked_at sid l'.session ≡ false
      → (b ≡ false → p.backlog l'.outside < p.backlog w)
      → (b ≡ true → p.backlog (o.block_stream sid l'.outside) < p.backlog w)
      → Round w l.session (some (if b then block_written o sid l' else l'))
  unfolding block_written
  block_if w false sid l l' r y n k m = record {
    next = l';
    returned = refl;
    reaches = r;
    synced = y;
    less = k refl;
  }
  block_if w true sid l l' r y n k m = rw n (record {
    next = record l' {
      session = mark blocks sid l'.session;
      outside = o.block_stream sid l'.outside;
    };
    returned = refl;
    reaches = Reaches_trans r (one_step (marks blocks sid));
    synced = λ x h. block_flag sid x l'.session l'.outside y h;
    less = m refl;
  })

  none_blocked : (b : Bool) → (b ≡ true → false ≡ true) → b ≡ false
  none_blocked true f = sym (f refl)
  none_blocked false f = refl

  module _ (w : W) (sid : ℕ) (fin : Bool) (lens : List ℕ)
      (offer : (o.writev_stream w).1 ≡ offers sid fin lens) where
    -- The stream that is offered is not flagged.
    unflagged :
        (session : Session)
        → ((x : ℕ) → blocked_at x session ≡ true → p.is_blocked x (o.writev_stream w).0 ≡ true)
        → blocked_at sid session ≡ false
    unflagged session y =
        none_blocked (blocked_at sid session) (λ h. sym (p.offered w sid fin lens offer) ∙ y sid h)

    write_out-Round :
        (st : ℕ) (l : Live W)
        → l.outside ≡ (o.writev_stream w).0
        → IsServed limit l.session
        → Synced o p l
        → Round w l.session (write_out o limit sid fin lens st l)
    unfolding write_out
    write_out-Round st l e v y =
        let res = stream_write (o.ssl_write st l.outside).1 lens fin in
        let ok = p.accepts st l.outside in
        let few = (stream_write_bounds (o.ssl_write st l.outside).1 lens fin ok).0 in
        let l' : Live W = record l {
          outside = (o.ssl_write st l.outside).0;
          total_bytes_written = add64 l.total_bytes_written res.accepted;
        } in
        let y' : Synced o p l' = λ x h. p.keep_write st x l.outside (y x h) in
        let sent =
          subst (λ t. p.backlog (tell o sid (expected lens) (o.ssl_write st t).0) < p.backlog w)
            (sym e) (p.sent w sid fin lens (some st) offer) in
        elim (Bool-cases res.broken) [
          | inl br ↦ rw br (told-Round w sid (expected lens) l' v y' sent)
          | inr br ↦
              let (b, t) = told-Back sid res.accepted l' v in
              let after : Live W = record l' {
                session = b.after;
                outside = tell o sid res.accepted l'.outside;
              } in
              rw (br, t)
                (block_if w res.blocked sid l after b.reaches
                  (λ x h. p.keep_tell sid res.accepted x l'.outside (y' x (b.quiet x h)))
                  (none_blocked (blocked_at sid b.after) (λ h.
                    sym
                      (unflagged l.session (λ x k. subst (λ t. p.is_blocked x t ≡ true) e (y x k)))
                    ∙ b.quiet sid h))
                  (λ nb.
                    let all = stream_write_whole (o.ssl_write st l.outside).1 lens fin ok nb br in
                    subst (λ n. p.backlog (tell o sid n l'.outside) < p.backlog w) (sym all) sent)
                  (λ bl.
                    subst
                      (λ t.
                        p.backlog
                          (o.block_stream sid (tell o sid res.accepted (o.ssl_write st t).0))
                        < p.backlog w)
                      (sym e) (p.held_back w sid fin lens st res.accepted offer few)))
        ]

    pub write_offered-Round :
        (l : Live W)
        → l.outside ≡ (o.writev_stream w).0
        → IsServed limit l.session
        → Synced o p l
        → Round w l.session (write_offered o limit sid fin lens l)
    unfolding write_offered
    write_offered-Round l e v y =
        let sent =
          subst (λ t. p.backlog (tell o sid (expected lens) t) < p.backlog w) (sym e)
            (p.sent w sid fin lens none offer) in
        let gone = told-Round w sid (expected lens) l v y sent in
        elim (Option-cases (find sid l.session.streams)) [
          | inl f ↦ rw (f, write_offered) gone
          | inr (s, f) ↦ elim (Option-cases s.qstream) [
            | inl q ↦ rw (f, write_offered) (rw q gone)
            | inr (st, q) ↦ rw (f, write_offered) (rw q (write_out-Round st l e v y))
          ]
        ]
