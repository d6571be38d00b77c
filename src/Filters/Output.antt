-- ===== src/Filters/Output.antt =====
-- What the output filter sends.
use mod_http3_stage.Prelude.{
  ℕ, ◌+◌, ◌≡◌, ◌∙◌, refl, sym, Bool, true, false, not, ◌||◌, none, some, List, [], ◌∷◌, ◌++◌,
  append-nil, append_assoc, arith,
}
use mod_http3_stage.Filters.{
  OutBucket, error_bucket, response_bucket, data_bucket, end_of_stream, flush, other_metadata, Call,
  sends_error, starts, completes, appends, captures, Made, Status, ok, failed, with_call, checked,
  out_loop, filter_out_proto,
}

-- The bytes that were passed to h3_stream_response_append, in order.
pub appended : List Call → List ℕ
appended [] = []
appended (appends bs ∷ cs) = appended cs ++ bs
appended (sends_error ∷ cs) = appended cs
appended (starts ∷ cs) = appended cs
appended (completes ∷ cs) = appended cs
appended (captures _ ∷ cs) = appended cs

-- How often the response was completed.
pub completions : List Call → ℕ
completions [] = 0
completions (completes ∷ cs) = completions cs + 1
completions (appends _ ∷ cs) = completions cs
completions (sends_error ∷ cs) = completions cs
completions (starts ∷ cs) = completions cs
completions (captures _ ∷ cs) = completions cs

-- The data of a brigade, and its ends of stream.
pub data_of : List OutBucket → List ℕ
data_of [] = []
data_of (data_bucket (some bs) ∷ more) = bs ++ data_of more
data_of (data_bucket none ∷ more) = data_of more
data_of (error_bucket ∷ more) = data_of more
data_of (response_bucket _ ∷ more) = data_of more
data_of (end_of_stream ∷ more) = data_of more
data_of (flush ∷ more) = data_of more
data_of (other_metadata ∷ more) = data_of more

pub ends_of : List OutBucket → ℕ
ends_of [] = 0
ends_of (end_of_stream ∷ more) = 1 + ends_of more
ends_of (data_bucket _ ∷ more) = ends_of more
ends_of (error_bucket ∷ more) = ends_of more
ends_of (response_bucket _ ∷ more) = ends_of more
ends_of (flush ∷ more) = ends_of more
ends_of (other_metadata ∷ more) = ends_of more

-- No bucket is an error, and all data can be read.
abbrev pub AllReadable : List OutBucket → Type 0
AllReadable [] = Unit
AllReadable (error_bucket ∷ more) = ⊥
AllReadable (data_bucket none ∷ more) = ⊥
AllReadable (data_bucket (some _) ∷ more) = AllReadable more
AllReadable (response_bucket _ ∷ more) = AllReadable more
AllReadable (end_of_stream ∷ more) = AllReadable more
AllReadable (flush ∷ more) = AllReadable more
AllReadable (other_metadata ∷ more) = AllReadable more

-- What a run adds to the bytes and to the completions that were there.
record Whole (sent : List ℕ) (done : ℕ) (r : Made × Status) : Type 0 where
  succeeds : r.1 ≡ ok
  in_order : appended r.0.calls ≡ sent
  ends : completions r.0.calls ≡ done

module _ (answers : Call → List Call → Bool)
    (all : (c : Call) (cs : List Call) → answers c cs ≡ true) where
  checked-Whole :
      (sent : List ℕ) (done : ℕ) (c : Call) (m : Made) (next : Made → Made × Status)
      → Whole sent done (next (with_call c m))
      → Whole sent done (checked answers c m next)
  checked-Whole sent done c m next w = rw (all c m.calls, checked) w

  out_loop-Whole :
      (bs : List OutBucket) (m : Made) (sent : List ℕ) (done : ℕ)
      → AllReadable bs
      → appended m.calls ++ data_of bs ≡ sent
      → completions m.calls + ends_of bs ≡ done
      → Whole sent done (out_loop answers true bs m)
  unfolding out_loop appended completions data_of ends_of
  out_loop-Whole [] m sent done r e n = record {
    succeeds = refl;
    in_order = sym (append-nil _) ∙ e;
    ends = omega arith;
  }
  out_loop-Whole (error_bucket ∷ bs) m sent done r e n = absurd r
  out_loop-Whole (data_bucket none ∷ bs) m sent done r e n = absurd r
  out_loop-Whole (response_bucket head ∷ bs) m sent done r e n =
      checked-Whole sent done starts (record m { resp = some head }) (out_loop answers true bs)
        (out_loop-Whole bs (with_call starts (record m { resp = some head })) sent done r e n)
  out_loop-Whole (data_bucket (some []) ∷ bs) m sent done r e n =
      checked-Whole sent done starts m (out_loop answers true bs)
        (out_loop-Whole bs (with_call starts m) sent done r e n)
  out_loop-Whole (data_bucket (some (d ∷ ds)) ∷ bs) m sent done r e n =
      let c = appends (d ∷ ds) in
      checked-Whole sent done starts m (λ m'. checked answers c m' (out_loop answers true bs))
        (checked-Whole sent done c (with_call starts m) (out_loop answers true bs) (
          out_loop-Whole bs (with_call c (with_call starts m)) sent done r
            (append_assoc (appended m.calls) (d ∷ ds) (data_of bs) ∙ e) n))
  out_loop-Whole (end_of_stream ∷ bs) m sent done r e n =
      checked-Whole sent done starts m (λ m'. out_loop answers true bs (with_call completes m'))
        (out_loop-Whole bs (with_call completes (with_call starts m)) sent done r e (omega arith))
  out_loop-Whole (flush ∷ bs) m sent done r e n =
      checked-Whole sent done starts m (out_loop answers true bs)
        (out_loop-Whole bs (with_call starts m) sent done r e n)
  out_loop-Whole (other_metadata ∷ bs) m sent done r e n = out_loop-Whole bs m sent done r e n

-- The filter of a streamed response, when every call succeeds, all data can be read and there is no
-- error bucket: it succeeds, appends the data of the brigade in order and whole behind what was
-- appended before, and completes the response once for each end of stream.
pub filter_out_whole :
    (answers : Call → List Call → Bool) (bs : List OutBucket) (m : Made)
    → ((c : Call) (cs : List Call) → answers c cs ≡ true)
    → AllReadable bs
    → ((filter_out_proto answers true false true bs m).1 ≡ ok)
      × (appended (filter_out_proto answers true false true bs m).0.calls
          ≡ appended m.calls ++ data_of bs)
      × (completions (filter_out_proto answers true false true bs m).0.calls
          ≡ completions m.calls + ends_of bs)
unfolding filter_out_proto
filter_out_whole answers bs m all r =
    let w = out_loop-Whole answers all bs m _ _ r refl refl in (w.succeeds, w.in_order, w.ends)

-- Data and completion come behind a start of the response, in a list of calls with the latest first.
pub has_start : List Call → Bool
has_start [] = false
has_start (starts ∷ cs) = true
has_start (_ ∷ cs) = has_start cs

abbrev needs_start : Call → Bool
needs_start (appends _) = true
needs_start completes = true
needs_start _ = false

abbrev pub StartsFirst : List Call → Type 0
StartsFirst [] = Unit
StartsFirst (c ∷ cs) = (not (needs_start c) || has_start cs ≡ true) × StartsFirst cs

checked-Starts :
    (answers : Call → List Call → Bool) (c : Call) (m : Made) (next : Made → Made × Status)
    → StartsFirst (c ∷ m.calls)
    → StartsFirst (next (with_call c m)).0.calls
    → StartsFirst (checked answers c m next).0.calls
checked-Starts answers c m next f g = go (answers c m.calls)
  where
    go :
        (b : Bool)
        → StartsFirst
            (let r : Made × Status = elim b [
              | true ↦ next (with_call c m)
              | false ↦ (with_call c m, failed)
            ] in
              r).0.calls
    go true = g
    go false = f

-- Whatever its calls answer and its brigade holds, the output filter appends data to a response or
-- completes it only behind a call of h3_response_start, if that was so of the calls before.
pub out_loop_starts :
    (answers : Call → List Call → Bool) (streaming : Bool) (bs : List OutBucket) (m : Made)
    → StartsFirst m.calls
    → StartsFirst (out_loop answers streaming bs m).0.calls
unfolding out_loop has_start
out_loop_starts answers streaming [] m f = f
out_loop_starts answers streaming (error_bucket ∷ bs) m f = (refl, f)
out_loop_starts answers streaming (other_metadata ∷ bs) m f =
    out_loop_starts answers streaming bs m f
out_loop_starts answers false (response_bucket head ∷ bs) m f =
    out_loop_starts answers false bs (record m { resp = some head }) f
out_loop_starts answers false (data_bucket read ∷ bs) m f =
    checked-Starts answers (captures read) m (out_loop answers false bs) (refl, f)
      (out_loop_starts answers false bs (with_call (captures read) m) (refl, f))
out_loop_starts answers false (end_of_stream ∷ bs) m f = out_loop_starts answers false bs m f
out_loop_starts answers false (flush ∷ bs) m f = out_loop_starts answers false bs m f
out_loop_starts answers true (response_bucket head ∷ bs) m f =
    checked-Starts answers starts (record m { resp = some head }) (out_loop answers true bs)
      (refl, f)
      (out_loop_starts answers true bs (with_call starts (record m { resp = some head })) (refl, f))
out_loop_starts answers true (data_bucket none ∷ bs) m f =
    checked-Starts answers starts m (λ m'. (m', failed)) (refl, f) (refl, f)
out_loop_starts answers true (data_bucket (some []) ∷ bs) m f =
    checked-Starts answers starts m (out_loop answers true bs) (refl, f)
      (out_loop_starts answers true bs (with_call starts m) (refl, f))
out_loop_starts answers true (data_bucket (some (d ∷ ds)) ∷ bs) m f =
    let c = appends (d ∷ ds) in
    checked-Starts answers starts m (λ m'. checked answers c m' (out_loop answers true bs))
      (refl, f)
      (checked-Starts answers c (with_call starts m) (out_loop answers true bs) (refl, (refl, f))
        (out_loop_starts answers true bs (with_call c (with_call starts m)) (refl, (refl, f))))
out_loop_starts answers true (end_of_stream ∷ bs) m f =
    checked-Starts answers starts m (λ m'. out_loop answers true bs (with_call completes m'))
      (refl, f)
      (out_loop_starts answers true bs (with_call completes (with_call starts m)) (refl, (refl, f)))
out_loop_starts answers true (flush ∷ bs) m f =
    checked-Starts answers starts m (out_loop answers true bs) (refl, f)
      (out_loop_starts answers true bs (with_call starts m) (refl, f))
