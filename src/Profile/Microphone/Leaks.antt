-- ===== src/Profile/Microphone/Leaks.antt =====
-- client/src/app/profile/page.tsx: which tests leave a stream that runs on.
use mathlib.Core.Path.{subst}
use wave_cast.Common.{sym, ℕ, true, false, ◌≡◌, List, ◌∷◌, arith, if◌then◌else◌}
use wave_cast.Profile.Microphone.{
  Mic, stream, resume, devices, Event, event, events, resumed, resume_fails, is_waiting, fail,
  context_resumed, PermissionStatus,
}
use wave_cast.Profile.Microphone.Phases.{InPhase, holds, starting}
use wave_cast.Profile.Microphone.Orphans.{
  Orphan, Avoids, runs, waiting-turns, other_waits, events-Orphan,
}

fails-Orphan :
    (rounded : ℕ → ℕ → ℕ) (t : ℕ) (status : PermissionStatus) (level : ℕ)
    → Orphan t (event rounded (resume_fails t) (holds (starting t) status level))
unfolding event fail
fails-Orphan rounded t status level = record {
  live = ground arith;
  lost = ground arith;
  no_grant = ground arith;
  no_resume = ground arith;
}

taken-Orphan :
    (t u : ℕ) (p : Mic)
    → runs t p.live_streams ≡ true
    → is_waiting t stream p.waiting ≡ false
    → is_waiting t resume p.waiting ≡ false
    → is_waiting u resume p.waiting ≡ true
    → Orphan t (context_resumed u p)
unfolding context_resumed
taken-Orphan t u p live grant res waits =
    let other = other_waits t u resume p.waiting waits res in
    record {
      live = live;
      lost = other;
      no_grant = waiting-turns t u stream devices p.waiting other grant;
      no_resume = waiting-turns t u resume devices p.waiting other res;
    }

-- When resuming the audio context fails after the microphone was granted, the stream of the test
-- runs on whatever happens next, the end of the page included, as long as no other test goes by
-- its number.
pub resume_fails-leaves :
    (rounded : ℕ → ℕ → ℕ) (t : ℕ) (es : List Event) (p : Mic)
    → InPhase p (starting t)
    → Avoids t es
    → runs t (events rounded (resume_fails t ∷ es) p).live_streams ≡ true
unfolding events
resume_fails-leaves rounded t es p (status, level, same) av =
    subst (λ q. runs t (events rounded (resume_fails t ∷ es) q).live_streams ≡ true) (sym same)
      (events-Orphan rounded t es (event rounded (resume_fails t) (holds (starting t) status level))
        (fails-Orphan rounded t status level) av).live

-- A test that ends its waiting while the stream of another one runs that waits for nothing more
-- takes the place of that test, whose stream then runs on whatever happens next, as long as no
-- other test goes by its number.
pub overlap-leaves :
    (rounded : ℕ → ℕ → ℕ) (t u : ℕ) (es : List Event) (p : Mic)
    → runs t p.live_streams ≡ true
    → is_waiting t stream p.waiting ≡ false
    → is_waiting t resume p.waiting ≡ false
    → is_waiting u resume p.waiting ≡ true
    → Avoids t es
    → runs t (events rounded (resumed u ∷ es) p).live_streams ≡ true
unfolding events event
overlap-leaves rounded t u es p live grant res waits av =
    (events-Orphan rounded t es (event rounded (resumed u) p)
      (subst (λ b. Orphan t (if b then context_resumed u p else p)) (sym waits)
        (taken-Orphan t u p live grant res waits))
      av).live
