-- ===== src/Streams/Pass/Runs.antt =====
-- The parts of service_session_pass as steps of the threads.
use mod_http3_stage.Prelude.{
  ℕ, ◌+◌, ◌≤◌, ◌^◌, ◌≡◌, refl, sym, Bool, true, false, not, ◌||◌, Option, none, some, List, [], ◌∷◌,
  if◌then◌else◌, leb, ◌==◌,
}
use mathlib.Core.Path.{subst}
use mod_http3_stage.Streams.{Session}
use mod_http3_stage.Streams.Dispatch.{
  Reaches, stays, track_stream, process_request, tracks, dispatches, frees,
}
use mod_http3_stage.Streams.Dispatch.Flags.{
  free_stream-Quieter, track_stream-Quieter, process_request-Quieter,
}
use mod_http3_stage.Streams.Dispatch.Steps.{IsServed}
use mod_http3_stage.Streams.Dispatch.Workers.{Reaches-IsServed}
use mod_http3_stage.Streams.Outside.{Outside, Live}
use mod_http3_stage.Streams.Outside.Promises.{Promises, Synced}
use mod_http3_stage.Streams.Outside.Runs.{one_step, Reaches_trans, RunsTo, Runs, then_Runs, if_Runs}
use mod_http3_stage.Streams.Flush.{flush_nghttp3}
use mod_http3_stage.Streams.Flush.Runs.{flush-Runs}
use mod_http3_stage.Streams.Ready.Runs.{drain_ready-Runs}
use mod_http3_stage.Streams.Pass.{
  goaway_grace, Served, unlocked, stop_gracefully, accept_each, process_each, serve_streams,
  service_session_pass,
}

module _ {W : Type 0} (o : Outside W) (limit bound : ℕ) (p : Promises o limit bound)
    (small : limit ≤ 2 ^ 30) (fuel : ℕ) (enough : bound ≤ fuel) (size buffer_size : ℕ) where
  abbrev live_of : Served W → Live W
  live_of v = v.live

  record Goes (l l' : Live W) : Type 0 where
    reaches : Reaches limit l.session l'.session
    synced : Synced o p l'

  served : {s t : Session} → Reaches limit s t → IsServed limit s → IsServed limit t
  served r v = Reaches-IsServed limit small _ _ r v

  unlocked-Goes : (l : Live W) → Synced o p l → Goes l (unlocked o fuel limit size buffer_size l)
  unlocked-Goes l y = record {
    reaches = p.workers l.outside l.session;
    synced =
        λ x h. p.keep_workers x l.outside l.session (y x (p.workers_quiet l.outside l.session x h));
  }

  flushed :
      (l : Live W)
      → IsServed limit l.session
      → Synced o p l
      → Runs o limit bound p l.session (flush_nghttp3 o fuel limit l)
  flushed l v y = flush-Runs o limit bound p small fuel l enough v y

  -- A session that other work left, with the mutex free for a while.
  freed :
      (session : Session) (l : Live W) (v : Served W)
      → Reaches limit session l.session
      → Synced o p l
      → v.live ≡ unlocked o fuel limit size buffer_size l
      → RunsTo o limit bound p live_of session (some v)
  freed session l v r y e =
      let g = unlocked-Goes l y in
      record {
        next = v;
        returned = refl;
        reaches = subst (λ k. Reaches limit session k.session) (sym e) (Reaches_trans r g.reaches);
        synced = subst (Synced o p) (sym e) g.synced;
      }

  accept_each-Goes :
      (accepted : List (Option ℕ × ℕ)) (v : Served W)
      → Synced o p v.live
      → Goes v.live (accept_each o fuel limit size buffer_size accepted v).live
  unfolding accept_each
  accept_each-Goes [] v y = record { reaches = stays; synced = y }
  accept_each-Goes ((none, st) ∷ more) v y =
      let q = accept_each-Goes more _ (λ x h. y x (free_stream-Quieter st v.live.session x h)) in
      record { reaches = Reaches_trans (one_step (frees st)) q.reaches; synced = q.synced }
  accept_each-Goes ((some sid, st) ∷ more) v y =
      let made = o.stream_created sid v.live.outside in
      let t = track_stream-Quieter made buffer_size sid st v.live.session in
      let l : Live W = record v.live {
        session = track_stream made buffer_size sid st v.live.session;
      } in
      let g = unlocked-Goes l (λ x h. y x (t x h)) in
      let q = accept_each-Goes more _ g.synced in
      record {
        reaches =
            Reaches_trans (one_step (tracks made buffer_size sid st))
              (Reaches_trans g.reaches q.reaches);
        synced = q.synced;
      }

  process_each-Goes :
      (sids : List ℕ) (l : Live W)
      → Synced o p l
      → Goes l (process_each o fuel limit size buffer_size sids l)
  unfolding process_each
  process_each-Goes [] l y = record { reaches = stays; synced = y }
  process_each-Goes (sid ∷ sids) l y =
      let created = o.task_pool_created sid l.outside in
      let pushed = o.task_pushed sid l.outside in
      let t = process_request-Quieter created pushed sid l.session in
      let l' : Live W = record l { session = process_request created pushed sid l.session } in
      let g = unlocked-Goes l' (λ x h. y x (t x h)) in
      let q = process_each-Goes sids (unlocked o fuel limit size buffer_size l') g.synced in
      record {
        reaches =
            Reaches_trans (one_step (dispatches created pushed sid))
              (Reaches_trans g.reaches q.reaches);
        synced = q.synced;
      }

  noticed-Goes :
      (b : Bool) (l : Live W)
      → Synced o p l
      → Goes l (if b then record l { outside = o.submit_shutdown_notice l.outside } else l)
  noticed-Goes true l y = record {
    reaches = stays;
    synced = λ x h. p.keep_notice x l.outside (y x h);
  }
  noticed-Goes false l y = record { reaches = stays; synced = y }

  stop_gracefully-Runs :
      (v : Served W)
      → IsServed limit v.live.session
      → Synced o p v.live
      → RunsTo o limit bound p live_of v.live.session
          (stop_gracefully o fuel limit size buffer_size v)
  unfolding stop_gracefully
  stop_gracefully-Runs v i y =
      let g = noticed-Goes (v.goaway_deadline == 0) v.live y in
      let start : Live W =
        if v.goaway_deadline == 0
        then record v.live { outside = o.submit_shutdown_notice v.live.outside }
        else v.live in
      let f = flushed start (served g.reaches i) g.synced in
      let r = Reaches_trans g.reaches f.reaches in
      let u = unlocked-Goes f.next f.synced in
      let l : Live W = unlocked o fuel limit size buffer_size f.next in
      let e =
        flushed (record l { outside = o.shutdown l.outside }) (served u.reaches (served r i))
          (λ x h. p.keep_shutdown x l.outside (u.synced x h)) in
      let deadline : ℕ =
        if v.goaway_deadline == 0 then o.now f.next.outside + goaway_grace else v.goaway_deadline in
      let v' : Served W = record v { live = l; goaway_deadline = deadline } in
      rw (f.returned, stop_gracefully)
        (if_Runs o limit bound p live_of
          (o.is_drained f.next.outside || leb deadline (o.now f.next.outside)) v.live.session _ _
          (λ _. rw e.returned (
            freed v.live.session e.next
              (record v' { live = unlocked o fuel limit size buffer_size e.next; aborted = true })
              (Reaches_trans r (Reaches_trans u.reaches e.reaches)) e.synced refl))
          (λ _. freed v.live.session f.next v' r f.synced refl))

  abbrev passed : Served W × Bool → Live W
  passed a = a.0.live

  serve_streams-Runs :
      (v : Served W)
      → IsServed limit v.live.session
      → Synced o p v.live
      → RunsTo o limit bound p passed v.live.session (serve_streams o fuel limit size buffer_size v)
  unfolding serve_streams
  serve_streams-Runs v i y =
      let accepted = (o.accept_streams v.live.outside).1 in
      let v0 : Served W = record v {
        live = record v.live { outside = (o.accept_streams v.live.outside).0 };
      } in
      let a = accept_each-Goes accepted v0 (λ x h. p.keep_accept x v.live.outside (y x h)) in
      let v1 = accept_each o fuel limit size buffer_size accepted v0 in
      let d = drain_ready-Runs o limit bound p small size v1.live (served a.reaches i) a.synced in
      let rd = Reaches_trans a.reaches d.reaches in
      let f = flushed d.next.0 (served rd i) d.synced in
      let rf = Reaches_trans rd f.reaches in
      let u = unlocked-Goes f.next f.synced in
      let l : Live W = unlocked o fuel limit size buffer_size f.next in
      let c = process_each-Goes d.next.2 l u.synced in
      let rc = Reaches_trans rf (Reaches_trans u.reaches c.reaches) in
      let e =
        flushed (process_each o fuel limit size buffer_size d.next.2 l) (served rc i) c.synced in
      let t = unlocked-Goes e.next e.synced in
      rw (d.returned, serve_streams)
        (rw f.returned (
          if_Runs o limit bound p passed f.next.ngh3_dead v.live.session _ _
            (λ _. record {
              next = _;
              returned = refl;
              reaches = Reaches_trans rf u.reaches;
              synced = u.synced;
            })
            (λ _. rw e.returned (record {
              next = _;
              returned = refl;
              reaches = Reaches_trans rc (Reaches_trans e.reaches t.reaches);
              synced = t.synced;
            }))))

  passed_Runs :
      (session : Session) (v : Served W) (b : Bool)
      → Reaches limit session v.live.session
      → Synced o p v.live
      → RunsTo o limit bound p passed session (some (v, b))
  passed_Runs session v b r y = record { next = (v, b); returned = refl; reaches = r; synced = y }

  pub service-Runs :
      (thread_running : Bool) (v : Served W)
      → IsServed limit v.live.session
      → Synced o p v.live
      → RunsTo o limit bound p passed v.live.session
          (service_session_pass o fuel limit size buffer_size thread_running v)
  unfolding service_session_pass
  service-Runs thread_running v i y =
      if_Runs o limit bound p passed v.aborted v.live.session _ _
        (λ _. passed_Runs v.live.session v false stays y)
        λ _.
          let first =
            if_Runs o limit bound p live_of thread_running v.live.session (some v)
              (stop_gracefully o fuel limit size buffer_size v)
              (λ _. record { next = v; returned = refl; reaches = stays; synced = y })
              (λ _. stop_gracefully-Runs v i y) in
          let w = first.next in
          then_Runs o limit bound p live_of passed v.live.session _ _ first (
            if_Runs o limit bound p passed w.aborted w.live.session _ _
              (λ _. passed_Runs w.live.session w false stays first.synced)
              (λ _.
                if_Runs o limit bound p passed (o.conn_is_closed w.live.outside) w.live.session _ _
                  (λ _.
                    passed_Runs w.live.session (record w { aborted = true }) false stays
                      first.synced)
                  (λ _.
                    if_Runs o limit bound p passed (not (o.scratch_created w.live.outside))
                      w.live.session _ _
                      (λ _. passed_Runs w.live.session w false stays first.synced)
                      (λ _. serve_streams-Runs w (served first.reaches i) first.synced))))
