-- ===== src/Profile/Microphone/Orphans.antt =====
-- client/src/app/profile/page.tsx: streams that the page has lost hold of.
use wave_cast.Common.{
  ℕ, Bool, true, false, not, ◌&&◌, ◌||◌, ◌≡◌, refl, List, [], ◌∷◌, ◌++◌, Option, none, some, any,
  eqb, arith, any-append, Bool-cases, inl, inr, if◌then◌else◌,
}
use wave_cast.Profile.Microphone.{
  Mic, Await, stream, resume, devices, Event, event, events, click, granted, refused, context_fails,
  resumed, resume_fails, devices_fail, listed, frame_fires, unmount, is_waiting, same_await,
  no_longer, without, without_ref, stop_microphone_test, test_microphone, fail, stream_granted,
  context_refused, context_resumed, devices_listed, update_voice_level,
}

abbrev pub runs : ℕ → List ℕ → Bool
runs t = any (λ s. eqb s t)

abbrev refers : ℕ → Option ℕ → Bool
refers t none = false
refers t (some s) = eqb s t

-- The stream runs, the page does not hold it, and no test is on the way to holding it.
pub record Orphan (t : ℕ) (p : Mic) : Type 0 where
  pub live : runs t p.live_streams ≡ true
  pub lost : refers t p.mic_stream ≡ false
  pub no_grant : is_waiting t stream p.waiting ≡ false
  pub no_resume : is_waiting t resume p.waiting ≡ false

-- No other test is started under the number.
abbrev pub Avoids : ℕ → List Event → Type 0
Avoids t [] = Unit
Avoids t (click s ∷ es) = (eqb s t ≡ false) × Avoids t es
Avoids t (_ ∷ es) = Avoids t es

runs-without : (t s : ℕ) (ss : List ℕ) → runs t (without s ss) ≡ (runs t ss && not (eqb t s))
runs-without t s [] = refl
runs-without t s (r ∷ ss) = ground (arith, runs-without t s ss)

runs-without_ref :
    (t : ℕ) (ref : Option ℕ) (ss : List ℕ)
    → refers t ref ≡ false
    → runs t ss ≡ true
    → runs t (without_ref ref ss) ≡ true
runs-without_ref t none ss h live = live
runs-without_ref t (some s) ss h live = ground (arith, runs-without t s ss)

waiting-no_longer :
    (t s : ℕ) (what : Await) (ws : List (ℕ × Await))
    → is_waiting t what (no_longer s ws) ≡ (is_waiting t what ws && not (eqb t s))
waiting-no_longer t s what [] = refl
waiting-no_longer t s what (w ∷ ws) = ground (arith, waiting-no_longer t s what ws)

waiting-append :
    (t s : ℕ) (what next : Await) (ws : List (ℕ × Await))
    → is_waiting t what (ws ++ (s, next) ∷ [])
      ≡ (is_waiting t what ws || eqb s t && same_await what next)
waiting-append t s what next [] = ground arith
waiting-append t s what next (w ∷ ws) = ground (arith, waiting-append t s what next ws)

-- What waits next, with an earlier wait of the same test over.
pub waiting-turns :
    (t s : ℕ) (what next : Await) (ws : List (ℕ × Await))
    → eqb s t ≡ false
    → is_waiting t what ws ≡ false
    → is_waiting t what (no_longer s ws ++ (s, next) ∷ []) ≡ false
waiting-turns t s what next ws other h =
    rw (waiting-append t s what next (no_longer s ws), waiting-no_longer t s what ws, h, other) refl

pub other_waits :
    (t s : ℕ) (what : Await) (ws : List (ℕ × Await))
    → is_waiting s what ws ≡ true
    → is_waiting t what ws ≡ false
    → eqb s t ≡ false
other_waits t s what [] h k = absurd (ground arith)
other_waits t s what (w ∷ ws) h k = ground (arith, other_waits t s what ws)

module _ (t : ℕ) (p : Mic) (o : Orphan t p) where
  stop-Orphan : Orphan t (stop_microphone_test p)
  unfolding stop_microphone_test
  stop-Orphan = record {
    live = runs-without_ref t p.mic_stream p.live_streams o.lost o.live;
    lost = refl;
    no_grant = o.no_grant;
    no_resume = o.no_resume;
  }

  test-Orphan : (s : ℕ) → eqb s t ≡ false → Orphan t (test_microphone s p)
  unfolding test_microphone
  test-Orphan s other = elim (Bool-cases p.is_mic_testing) [
    | inl on ↦ rw (on, test_microphone) stop-Orphan
    | inr off ↦
        rw (off, test_microphone)
          record {
            live = o.live;
            lost = o.lost;
            no_grant = rw (waiting-append t s stream stream p.waiting, o.no_grant, other) refl;
            no_resume = rw (waiting-append t s resume stream p.waiting, o.no_resume, other) refl;
          }
  ]

  fail-Orphan : (s : ℕ) → Orphan t (fail s p)
  unfolding fail
  fail-Orphan s = record {
    live = o.live;
    lost = o.lost;
    no_grant = ground (arith, o.no_grant, waiting-no_longer t s stream p.waiting);
    no_resume = ground (arith, o.no_resume, waiting-no_longer t s resume p.waiting);
  }

  granted-Orphan : (s : ℕ) → eqb s t ≡ false → Orphan t (stream_granted s p)
  unfolding stream_granted
  granted-Orphan s other = record {
    live = ground (arith, o.live, any-append (λ r. eqb r t) p.live_streams (s ∷ []));
    lost = o.lost;
    no_grant = waiting-turns t s stream resume p.waiting other o.no_grant;
    no_resume = waiting-turns t s resume resume p.waiting other o.no_resume;
  }

  resumed-Orphan : (s : ℕ) → eqb s t ≡ false → Orphan t (context_resumed s p)
  unfolding context_resumed
  resumed-Orphan s other = record {
    live = o.live;
    lost = other;
    no_grant = waiting-turns t s stream devices p.waiting other o.no_grant;
    no_resume = waiting-turns t s resume devices p.waiting other o.no_resume;
  }

  refused-Orphan : (s : ℕ) → Orphan t (context_refused s p)
  unfolding context_refused fail
  refused-Orphan s = record {
    live = ground (arith, o.live, any-append (λ r. eqb r t) p.live_streams (s ∷ []));
    lost = o.lost;
    no_grant = ground (arith, o.no_grant, waiting-no_longer t s stream p.waiting);
    no_resume = ground (arith, o.no_resume, waiting-no_longer t s resume p.waiting);
  }

  listed-Orphan :
      (rounded : ℕ → ℕ → ℕ) (s : ℕ) (vs : List ℕ) (f : ℕ)
      → Orphan t (devices_listed rounded s vs f p)
  unfolding devices_listed update_voice_level
  listed-Orphan rounded s vs f = record {
    live = o.live;
    lost = o.lost;
    no_grant = ground (arith, o.no_grant, waiting-no_longer t s stream p.waiting);
    no_resume = ground (arith, o.no_resume, waiting-no_longer t s resume p.waiting);
  }

  if-Orphan : (b : Bool) (q : Mic) → (b ≡ true → Orphan t q) → Orphan t (if b then q else p)
  if-Orphan true q h = h refl
  if-Orphan false q h = o

event-Orphan :
    (rounded : ℕ → ℕ → ℕ) (t : ℕ) (e : Event) (es : List Event) (p : Mic)
    → Orphan t p
    → Avoids t (e ∷ es)
    → Orphan t (event rounded e p)
unfolding event update_voice_level
event-Orphan rounded t (click s) es p o (other, av) = test-Orphan t p o s other
event-Orphan rounded t (granted s) es p o av =
    if-Orphan t p o (is_waiting s stream p.waiting) _
      (λ w. granted-Orphan t p o s (other_waits t s stream p.waiting w o.no_grant))
event-Orphan rounded t (refused s) es p o av = if-Orphan t p o _ _ (λ _. fail-Orphan t p o s)
event-Orphan rounded t (context_fails s) es p o av =
    if-Orphan t p o _ _ (λ _. refused-Orphan t p o s)
event-Orphan rounded t (resumed s) es p o av =
    if-Orphan t p o (is_waiting s resume p.waiting) _
      (λ w. resumed-Orphan t p o s (other_waits t s resume p.waiting w o.no_resume))
event-Orphan rounded t (resume_fails s) es p o av = if-Orphan t p o _ _ (λ _. fail-Orphan t p o s)
event-Orphan rounded t (devices_fail s) es p o av = if-Orphan t p o _ _ (λ _. fail-Orphan t p o s)
event-Orphan rounded t (listed s vs f) es p o av =
    if-Orphan t p o _ _ (λ _. listed-Orphan t p o rounded s vs f)
event-Orphan rounded t (frame_fires f vs g) es p o av =
    if-Orphan t p o (any (λ h. eqb h f) p.frames)
      (update_voice_level rounded vs g (record p { frames = without f p.frames }))
      (λ _. record { live = o.live; lost = o.lost; no_grant = o.no_grant; no_resume = o.no_resume })
event-Orphan rounded t unmount es p o av = stop-Orphan t p o

Avoids-rest : (t : ℕ) (e : Event) (es : List Event) → Avoids t (e ∷ es) → Avoids t es
Avoids-rest t (click s) es (other, av) = av
Avoids-rest t _ es av = av

pub events-Orphan :
    (rounded : ℕ → ℕ → ℕ) (t : ℕ) (es : List Event) (p : Mic)
    → Orphan t p
    → Avoids t es
    → Orphan t (events rounded es p)
unfolding events
events-Orphan rounded t [] p o av = o
events-Orphan rounded t (e ∷ es) p o av =
    events-Orphan rounded t es (event rounded e p) (event-Orphan rounded t e es p o av)
      (Avoids-rest t e es av)
