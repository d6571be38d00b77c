-- ===== src/Streams/Outside/Totals.antt =====
-- The counters of a session and nghttp3's callbacks.
use mod_http3_stage.Prelude.{ℕ, ◌≡◌, refl, Option, none, some, Option-cases, inl, inr}
use mod_http3_stage.Streams.Outside.{Calls, Live, run_calls, called_back}

-- The counter of the bytes read, where there is a result.
abbrev pub HasRead : {W : Type 0} → ℕ → Option (Live W) → Type 0
HasRead n none = Unit
HasRead n (some l) = l.total_bytes_read ≡ n

pub called_back-HasRead :
    {W : Type 0} (limit : ℕ) (calls : Calls) (w : W) (l : Live W)
    → HasRead l.total_bytes_read (called_back limit calls w l)
unfolding called_back
called_back-HasRead limit calls w l = elim (Option-cases (run_calls limit calls l.session)) [
  | inl e ↦ rw (e, called_back) tt
  | inr (session, e) ↦ rw (e, called_back) refl
]
