-- ===== src/Collector/Heads/Stuck.antt =====
-- continuous/collector.go: where the two goroutines are once WatchHeads has returned.
use shutter_tests.Prelude.{◌≡◌, refl, sym, subst, ◌∙◌, String, false, Option, some, none, arith}
use shutter_tests.Collector.Cache.{BlockCache, Source}
use shutter_tests.Collector.Heads.{
  Heads, ended, Primer, ranging, took, priming, waiting, returned, end_watcher, receive, prime_step,
  collect_step, Step, subscribes, refused, context_ends, head_comes, subscription_ends, hands_over,
  measures, primes, primed, range_ends, closes, returns, collect_starts, collects, start, Reach,
  here, next,
}

-- In the loop over the channel: it waits for a head, or does what it does for one.
abbrev pub InLoop : Primer → Type 0
InLoop ranging = Unit
InLoop (took head) = Unit
InLoop (priming pass) = Unit
InLoop waiting = ⊥
InLoop (returned e) = ⊥

-- The loop over the channel still runs, and nobody is there to close the channel.
pub record IsRanging (s : Heads) : Type 0 where
  pub loops : InLoop s.primer
  pub no_closer : s.closer ≡ false
  pub open_channel : s.closed ≡ false

-- What a step does to the channel and the loop.
still :
    {s t : Heads}
    → IsRanging s
    → InLoop t.primer
    → t.closer ≡ s.closer
    → t.closed ≡ s.closed
    → IsRanging t
still h l c d = record { loops = l; no_closer = c ∙ h.no_closer; open_channel = d ∙ h.open_channel }

Step-IsRanging :
    {Answers : Source → Type 0} {s t : Heads} → Step Answers s t → IsRanging s → IsRanging t
unfolding end_watcher receive prime_step collect_step
Step-IsRanging (subscribes e) h = still h h.loops refl refl
Step-IsRanging (refused x e) h = still h h.loops refl refl
Step-IsRanging (context_ends x e f) h = still h h.loops refl refl
Step-IsRanging (head_comes n e) h = still h h.loops refl refl
Step-IsRanging (subscription_ends none e) h = still h h.loops refl refl
Step-IsRanging (subscription_ends (some x) e) h = still h h.loops refl refl
Step-IsRanging (hands_over n e f) h = still h tt refl refl
Step-IsRanging (measures n e) h = still h tt refl refl
Step-IsRanging (primes src a pass e) h = still h tt refl refl
Step-IsRanging (primed e) h = still h tt refl refl
Step-IsRanging (range_ends e f) h = absurd (cc (sym f ∙ h.open_channel))
Step-IsRanging (closes x e f) h = absurd (cc (sym e ∙ h.no_closer))
Step-IsRanging (returns x e f) h = absurd (subst InLoop e h.loops)
Step-IsRanging (collect_starts a b e) h = still h h.loops refl refl
Step-IsRanging (collects src a) h = still h h.loops refl refl

Reach-IsRanging :
    {Answers : Source → Type 0} {cache : BlockCache} {s : Heads}
    → Reach Answers cache s
    → IsRanging s
unfolding start
Reach-IsRanging here = record { loops = tt; no_closer = refl; open_channel = refl }
Reach-IsRanging (next r st) = Step-IsRanging st (Reach-IsRanging r)

Step-blocked :
    {Answers : Source → Type 0} {s t : Heads} (e : Option String)
    → Step Answers s t
    → s.watcher ≡ ended e
    → IsRanging s
    → (t.watcher ≡ s.watcher) × (t.received ≡ s.received)
unfolding prime_step collect_step
Step-blocked e (subscribes g) w h = ground arith
Step-blocked e (refused x g) w h = ground arith
Step-blocked e (context_ends x g f) w h = ground arith
Step-blocked e (head_comes n g) w h = ground arith
Step-blocked e (subscription_ends x g) w h = ground arith
Step-blocked e (hands_over n g f) w h = ground arith
Step-blocked e (measures n g) w h = (refl, refl)
Step-blocked e (primes src a pass g) w h = (refl, refl)
Step-blocked e (primed g) w h = (refl, refl)
Step-blocked e (range_ends g f) w h = (refl, refl)
Step-blocked e (closes x g f) w h = (refl, refl)
Step-blocked e (returns x g f) w h = (refl, refl)
Step-blocked e (collect_starts a b g) w h = (refl, refl)
Step-blocked e (collects src a) w h = (refl, refl)

-- After WatchHeads has returned, with an error or none, PrimeBlockCache stays in its loop for ever:
-- after any step that is still possible, whatever is answered to the passes, it is in the loop over the
-- channel, which is not closed, WatchHeads is not back, and no head was received.
pub Reach-blocked :
    {Answers : Source → Type 0} {cache : BlockCache} {s t : Heads}
    → Reach Answers cache s
    → Step Answers s t
    → (e : Option String) → s.watcher ≡ ended e
    → InLoop t.primer × (t.closed ≡ false) × (t.watcher ≡ s.watcher) × (t.received ≡ s.received)
Reach-blocked r st e w =
    let h = Reach-IsRanging r in
    let k = Step-IsRanging st h in
    let (watcher, received) = Step-blocked e st w h in (k.loops, k.open_channel, watcher, received)
