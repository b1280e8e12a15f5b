-- ===== src/Collector/Heads/Whole.antt =====
-- continuous/collector.go: what the cache holds while the two loops fill it at the same time.
use shutter_tests.Prelude.{
  ℕ, ◌≡◌, refl, sym, subst, List, [], none, some, lookup, lookup-insert, nat_eq, ◌==◌, Bool-cases,
  Option-cases, inl, inr, arith, ==→≡, leb, ltb, ◌&&◌,
}
use shutter_tests.Prelude.Words.{int64_of_uint64}
use shutter_tests.Prelude.Outcomes.{Outcome, ok, err, panic}
use shutter_tests.Collector.Cache.{
  Success, BlockCache, load, store, max_key, Block, Source, successes,
}
use shutter_tests.Collector.Heads.{
  Heads, Pass, loading, storing, done, Primer, ranging, took, priming, waiting, returned, fetched,
  looked_up, pass_step, prime_pass, end_watcher, receive, prime_step, collect_step, Step,
  subscribes, refused, context_ends, head_comes, subscription_ends, hands_over, measures, primes,
  primed, range_ends, closes, returns, collect_starts, collects, start, Reach, here, next,
}

module _ (Answers : Source → Type 0) where
  -- The successes of a block as one fetch of it gave them.
  pub record IsFetched (block_num : ℕ) (found : List Success) : Type 0 where
    pub source : Source
    pub given : Answers source
    pub block : Block
    pub answered : source.block_by_number (int64_of_uint64 block_num) ≡ ok block
    pub whole : found ≡ successes source block block.transactions

  abbrev IsWhole : BlockCache → Type 0
  IsWhole cache = (b : ℕ) (found : List Success) → load cache b ≡ some found → IsFetched b found

  abbrev IsHonest : Pass → Type 0
  IsHonest (loading b n) = Unit
  IsHonest (storing b n found) = IsFetched b found
  IsHonest done = Unit

  abbrev IsPrimed : Primer → Type 0
  IsPrimed ranging = Unit
  IsPrimed (took head) = Unit
  IsPrimed (priming pass) = IsHonest pass
  IsPrimed waiting = Unit
  IsPrimed (returned e) = Unit

  store-IsWhole :
      (cache : BlockCache) (b : ℕ) (found : List Success)
      → IsWhole cache
      → IsFetched b found
      → IsWhole (store cache b found)
  unfolding store load
  store-IsWhole cache b found w f c x h = elim (Bool-cases (b == c)) [
    | inl t ↦
        let same : found ≡ x = ground (arith, lookup-insert b c found cache) in
        subst (IsFetched c) same (subst (λ k. IsFetched k found) (==→≡ b c t) f)
    | inr e ↦ w c x (ground (arith, lookup-insert b c found cache))
  ]

  fetched-IsHonest :
      (src : Source) (b n : ℕ) (answer : Outcome Block)
      → Answers src
      → src.block_by_number (int64_of_uint64 b) ≡ answer
      → IsHonest (fetched src b n answer)
  unfolding fetched
  fetched-IsHonest src b n (ok block) a e = record {
    source = src;
    given = a;
    block = block;
    answered = e;
    whole = refl;
  }
  fetched-IsHonest src b n (err x) a e = tt
  fetched-IsHonest src b n (panic p) a e = tt

  pass_step-keeps :
      (src : Source) (cache : BlockCache) (pass : Pass)
      → Answers src
      → IsWhole cache
      → IsHonest pass
      → IsHonest (pass_step src cache pass).0 × IsWhole (pass_step src cache pass).1
  unfolding pass_step looked_up
  pass_step-keeps src cache done a w h = (tt, w)
  pass_step-keeps src cache (storing b n found) a w h = (tt, store-IsWhole cache b found w h)
  pass_step-keeps src cache (loading b n) a w h = elim (Bool-cases (leb b n)) [
    | inr f ↦ rw f (tt, w)
    | inl t ↦ elim (Option-cases (load cache b)) [
      | inr (found, hit) ↦ rw (t, hit) (tt, w)
      | inl miss ↦ rw (t, miss) (fetched-IsHonest src b n _ a refl, w)
    ]
  ]

  prime_pass-IsHonest : (cache : BlockCache) (head : ℕ) → IsHonest (prime_pass cache head)
  unfolding prime_pass
  prime_pass-IsHonest cache head =
      elim (Bool-cases (ltb 0 (max_key cache) && ltb (max_key cache) head)) [
        | inl t ↦ rw t tt
        | inr f ↦ rw f tt
      ]

  record IsSound (s : Heads) : Type 0 where
    cached : IsWhole s.cache
    primes_whole : IsPrimed s.primer
    collects_whole : IsHonest s.collecting

  unchanged :
      {s t : Heads}
      → IsSound s
      → t.cache ≡ s.cache
      → t.primer ≡ s.primer
      → t.collecting ≡ s.collecting
      → IsSound t
  unchanged h c p q = record {
    cached = subst IsWhole (sym c) h.cached;
    primes_whole = subst IsPrimed (sym p) h.primes_whole;
    collects_whole = subst IsHonest (sym q) h.collects_whole;
  }

  elsewhere :
      {s t : Heads}
      → IsSound s
      → t.cache ≡ s.cache
      → IsPrimed t.primer
      → t.collecting ≡ s.collecting
      → IsSound t
  elsewhere h c p q = record {
    cached = subst IsWhole (sym c) h.cached;
    primes_whole = p;
    collects_whole = subst IsHonest (sym q) h.collects_whole;
  }

  Step-IsSound : {s t : Heads} → Step Answers s t → IsSound s → IsSound t
  unfolding end_watcher receive prime_step collect_step
  Step-IsSound (subscribes e) h = unchanged h refl refl refl
  Step-IsSound (refused x e) h = unchanged h refl refl refl
  Step-IsSound (context_ends x e f) h = unchanged h refl refl refl
  Step-IsSound (head_comes n e) h = unchanged h refl refl refl
  Step-IsSound (subscription_ends none e) h = unchanged h refl refl refl
  Step-IsSound (subscription_ends (some x) e) h = unchanged h refl refl refl
  Step-IsSound (hands_over n e f) h = elsewhere h refl tt refl
  Step-IsSound {s} (measures n e) h = elsewhere h refl (prime_pass-IsHonest s.cache n) refl
  Step-IsSound {s} (primes src a pass e) h =
      let (honest, whole) =
        pass_step-keeps src s.cache pass a h.cached (subst IsPrimed e h.primes_whole) in
      record { cached = whole; primes_whole = honest; collects_whole = h.collects_whole }
  Step-IsSound (primed e) h = elsewhere h refl tt refl
  Step-IsSound (range_ends e f) h = elsewhere h refl tt refl
  Step-IsSound (closes x e f) h = unchanged h refl refl refl
  Step-IsSound (returns x e f) h = elsewhere h refl tt refl
  Step-IsSound (collect_starts a b e) h = record {
    cached = h.cached;
    primes_whole = h.primes_whole;
    collects_whole = tt;
  }
  Step-IsSound {s} (collects src a) h =
      let (honest, whole) = pass_step-keeps src s.cache s.collecting a h.cached h.collects_whole in
      record { cached = whole; primes_whole = h.primes_whole; collects_whole = honest }

  Reach-IsSound : {s : Heads} → Reach Answers [] s → IsSound s
  unfolding start load lookup
  Reach-IsSound here = record {
    cached = λ b found h. ground (arith, h);
    primes_whole = tt;
    collects_whole = tt;
  }
  Reach-IsSound (next r st) = Step-IsSound st (Reach-IsSound r)

-- However the steps of PrimeBlockCache and of the main loop's passes interleave, and whatever the node
-- and the database answer at each of them, what an at first empty cache holds for a block is what a
-- single one of the answers given gave for that block, all of it and in its order.
pub Reach-IsFetched :
    {Answers : Source → Type 0} {s : Heads}
    → Reach Answers [] s
    → (block_num : ℕ) (found : List Success) → load s.cache block_num ≡ some found
    → IsFetched Answers block_num found
Reach-IsFetched {Answers} r block_num found h = (Reach-IsSound Answers r).cached block_num found h
