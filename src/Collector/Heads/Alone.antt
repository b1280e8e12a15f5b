-- ===== src/Collector/Heads/Alone.antt =====
-- continuous/collector.go: a pass that nothing interrupts is the call of collectSubmitIncomingTx.
use shutter_tests.Prelude.{
  ℕ, zero, suc, ◌+◌, ◌-◌, ◌≡◌, refl, sym, ap, ◌∙◌, List, [], ◌++◌, Option, none, some, Option-cases,
  inl, inr, arith, leb, true, false,
}
use shutter_tests.Prelude.Words.{int64_of_uint64}
use shutter_tests.Prelude.Outcomes.{Outcome, Outcome-cases, ok, err, panic}
use shutter_tests.Collector.Cache.{
  Block, Success, BlockCache, Source, load, store, successes, block_successes, collect_loop, rounds,
  collect_submit_incoming_tx,
}
use shutter_tests.Collector.Heads.{Pass, loading, storing, done, fetched, looked_up, pass_step}

abbrev pub passes : Source → ℕ → Pass × BlockCache → Pass × BlockCache
passes src zero s = s
passes src (suc k) (pass, cache) = passes src k (pass_step src cache pass)

finished :
    (src : Source) (a b : ℕ) (cache : BlockCache)
    → leb a b ≡ false
    → pass_step src cache (loading a b) ≡ (done, cache)
unfolding pass_step
finished src a b cache h = rw h refl

loop_goes_on :
    (src : Source) (n a : ℕ) (cache cache' : BlockCache) (found result : List Success)
    → block_successes src cache a ≡ some (found, cache')
    → collect_loop src (suc n) a cache result ≡ collect_loop src n (a + 1) cache' (result ++ found)
unfolding collect_loop
loop_goes_on src n a cache cache' found result h = rw (h, collect_loop) refl

loop_ends :
    (src : Source) (n a : ℕ) (cache : BlockCache) (result : List Success)
    → block_successes src cache a ≡ none
    → collect_loop src (suc n) a cache result ≡ (result, cache)
unfolding collect_loop
loop_ends src n a cache result h = rw (h, collect_loop) refl

looks_up :
    (src : Source) (a b : ℕ) (cache : BlockCache) (answer : Option (List Success))
    → leb a b ≡ true
    → load cache a ≡ answer
    → pass_step src cache (loading a b) ≡ (looked_up src a b answer, cache)
unfolding pass_step
looks_up src a b cache answer below e = rw (below, e) refl

fetches :
    (src : Source) (a b : ℕ) (cache : BlockCache) (answer : Outcome Block)
    → leb a b ≡ true
    → load cache a ≡ none
    → src.block_by_number (int64_of_uint64 a) ≡ answer
    → pass_step src cache (loading a b) ≡ (fetched src a b answer, cache)
unfolding looked_up
fetches src a b cache answer below miss e = rw (sym e) (looks_up src a b cache none below miss)

hits :
    (src : Source) (a b : ℕ) (cache : BlockCache) (found : List Success)
    → leb a b ≡ true
    → load cache a ≡ some found
    → pass_step src cache (loading a b) ≡ (loading (a + 1) b, cache)
unfolding looked_up
hits src a b cache found below hit = looks_up src a b cache (some found) below hit

stores :
    (src : Source) (a b : ℕ) (cache : BlockCache) (found : List Success)
    → pass_step src cache (storing a b found) ≡ (loading (a + 1) b, store cache a found)
unfolding pass_step
stores src a b cache found = refl

abbrev Ends : Source → ℕ → ℕ → BlockCache → BlockCache → Type 0
Ends src a b cache last = (k : ℕ) × (passes src k (loading a b, cache) ≡ (done, last))

-- One step of the pass is one round of the loop where the block is cached, and the last where the node
-- fails; two steps are a round where the block is fetched.
collect_loop-passes :
    (src : Source) (n a b : ℕ) (cache : BlockCache) (result : List Success)
    → n ≡ b + 1 - a
    → Ends src a b cache (collect_loop src n a cache result).1
unfolding collect_loop fetched block_successes successes store
collect_loop-passes src zero a b cache result h = (1, finished src a b cache (ground (arith, h)))
collect_loop-passes src (suc n) a b cache result h =
    let below : leb a b ≡ true = ground (arith, h) in
    let rest : n ≡ b + 1 - (a + 1) = omega (arith, h) in
    elim (Option-cases (load cache a)) [
      | inr (found, hit) ↦
          let (k, e) = collect_loop-passes src n (a + 1) b cache (result ++ found) rest in
          (
            suc k,
            ap (passes src k) (hits src a b cache found below hit)
                ∙ e
                ∙ ap (λ r. (done, r.1))
                    (sym (
                      loop_goes_on src n a cache cache found result
                        (rw (hit, block_successes) refl))),
          )
      | inl miss ↦ elim (Outcome-cases (src.block_by_number (int64_of_uint64 a))) [
        | inl (block, e) ↦
            let found = successes src block block.transactions in
            let (k, i) =
              collect_loop-passes src n (a + 1) b (store cache a found) (result ++ found) rest in
            (
              suc (suc k),
              ap (passes src (suc k)) (fetches src a b cache (ok block) below miss e)
                  ∙ ap (passes src k) (stores src a b cache found)
                  ∙ i
                  ∙ ap (λ r. (done, r.1))
                      (sym (
                        loop_goes_on src n a cache (store cache a found) found result
                          (rw (miss, e, block_successes) refl))),
            )
        | inr (inl (x, e)) ↦ (
          1,
          fetches src a b cache (err x) below miss e
              ∙ ap (λ r. (done, r.1))
                  (sym (loop_ends src n a cache result (rw (miss, e, block_successes) refl))),
        )
        | inr (inr (p, e)) ↦ (
          1,
          fetches src a b cache (panic p) below miss e
              ∙ ap (λ r. (done, r.1))
                  (sym (loop_ends src n a cache result (rw (miss, e, block_successes) refl))),
        )
      ]
    ]

-- If no other step comes between the steps of a pass, and one source answers all of them, the pass ends
-- with the cache that the whole call of collectSubmitIncomingTx leaves.
pub collect-passes :
    (src : Source) (start_block end_block : ℕ) (cache : BlockCache)
    → (k : ℕ) × (passes src k (loading start_block end_block, cache)
        ≡ (done, (collect_submit_incoming_tx src start_block end_block cache).1))
unfolding collect_submit_incoming_tx rounds
collect-passes src start_block end_block cache =
    collect_loop-passes src (end_block + 1 - start_block) start_block end_block cache [] refl
