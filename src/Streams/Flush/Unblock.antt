-- ===== src/Streams/Flush/Unblock.antt =====
-- unblock_writable_streams as steps of the threads.
use mod_http3_stage.Prelude.{
  ℕ, ◌≤◌, ◌^◌, ◌≡◌, ◌∙◌, refl, sym, Bool, true, false, some, List, [], ◌∷◌, if◌then◌else◌, arith,
  ◌==◌, Bool-cases, Option-cases, inl, inr,
}
use mod_http3_stage.State.{Stream}
use mod_http3_stage.Streams.{Session, find}
use mod_http3_stage.Streams.Marks.{unblocks, mark, set_mark}
use mod_http3_stage.Streams.Dispatch.{Reaches, stays, marks}
use mod_http3_stage.Streams.Dispatch.Table.{ids}
use mod_http3_stage.Streams.Dispatch.Flags.{blocked_at, mark_flag}
use mod_http3_stage.Streams.Outside.{Outside, Live}
use mod_http3_stage.Streams.Outside.Promises.{Promises, Synced}
use mod_http3_stage.Streams.Outside.Runs.{one_step, Reaches_trans}
use mod_http3_stage.Streams.Flush.{unblock_one, unblock_each, unblock_writable_streams}

module _ {W : Type 0} (o : Outside W) (limit bound : ℕ) (p : Promises o limit bound)
    (small : limit ≤ 2 ^ 30) where
  pub record Goes (l l' : Live W) : Type 0 where
    pub reaches : Reaches limit l.session l'.session
    pub synced : Synced o p l'

  unblock_flag :
      (sid x : ℕ) (s : Stream) (session : Session) (w : W)
      → find sid session.streams ≡ some s
      → ((x : ℕ) → blocked_at x session ≡ true → p.is_blocked x w ≡ true)
      → blocked_at x (mark unblocks sid session) ≡ true
      → p.is_blocked x (o.unblock_stream sid w) ≡ true
  unfolding set_mark
  unblock_flag sid x s session w e y h =
      let f = mark_flag unblocks sid x s session e in
      elim (Bool-cases (x == sid)) [
        | inl k ↦
            let z : blocked_at x (mark unblocks sid session) ≡ false = f ∙ rw k refl in ground arith
        | inr n ↦
            let z : blocked_at x (mark unblocks sid session) ≡ blocked_at x session =
              f ∙ rw n refl in
            p.keep_unblock sid x w n (y x (sym z ∙ h))
      ]

  unblock_if :
      (b : Bool) (sid : ℕ) (s : Stream) (l : Live W)
      → find sid l.session.streams ≡ some s
      → Synced o p l
      → Goes l (
          if b then l else record l {
            session = mark unblocks sid l.session;
            outside = o.unblock_stream sid l.outside;
          })
  unblock_if true sid s l e y = record { reaches = stays; synced = y }
  unblock_if false sid s l e y = record {
    reaches = one_step (marks unblocks sid);
    synced = λ x h. unblock_flag sid x s l.session l.outside e y h;
  }

  unblock_one-Goes : (sid : ℕ) (l : Live W) → Synced o p l → Goes l (unblock_one o sid l)
  unfolding unblock_one
  unblock_one-Goes sid l y = elim (Option-cases (find sid l.session.streams)) [
    | inl e ↦ rw (e, unblock_one) (record { reaches = stays; synced = y })
    | inr (s, e) ↦ rw (e, unblock_one) (unblock_if _ sid s l e y)
  ]

  unblock_each-Goes : (sids : List ℕ) (l : Live W) → Synced o p l → Goes l (unblock_each o sids l)
  unfolding unblock_each
  unblock_each-Goes [] l y = record { reaches = stays; synced = y }
  unblock_each-Goes (sid ∷ sids) l y =
      let g = unblock_one-Goes sid l y in
      let h = unblock_each-Goes sids (unblock_one o sid l) g.synced in
      record { reaches = Reaches_trans g.reaches h.reaches; synced = h.synced }

  pub unblock_writable-Goes : (l : Live W) → Synced o p l → Goes l (unblock_writable_streams o l)
  unfolding unblock_writable_streams
  unblock_writable-Goes l y = elim (Bool-cases (l.session.blocked_streams == 0)) [
    | inl e ↦ rw e (record { reaches = stays; synced = y })
    | inr e ↦ rw e (unblock_each-Goes (ids l.session.streams) l y)
  ]
