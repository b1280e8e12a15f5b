-- ===== src/Collector/Heads.antt =====
-- continuous/collector.go: WatchHeads and PrimeBlockCache, two goroutines on a channel that holds no
-- value, beside the main loop that collects for its statistics. A head is handed over where the one
-- sends and the other receives. The passes over the blocks interleave: looking a block up, with its
-- fetch and the queries for its transactions, is one step, storing what was found is another, and the
-- node and the database may answer differently at each step.
pub mod Stuck
pub mod Whole
pub mod Alone
use shutter_tests.Prelude.{
  ℕ, ◌+◌, ◌≡◌, ◌++◌, List, [], ◌∷◌, Bool, true, false, Option, some, none, String, leb, ltb, ◌&&◌,
  if◌then◌else◌,
}
use shutter_tests.Prelude.Words.{int64_of_uint64}
use shutter_tests.Prelude.Outcomes.{Outcome, ok, err, panic}
use shutter_tests.Collector.Cache.{
  Success, Block, BlockCache, Source, load, store, max_key, successes,
}

-- Where WatchHeads is: it subscribes, waits in the select, sends a head, or has returned.
pub data Watcher : Type 0 where
  subscribing watching : Watcher
  sending : ℕ → Watcher
  ended : Option String → Watcher

-- Where a call of collectSubmitIncomingTx is: about to look up a block, up to the end block; about to
-- store what it found in a block; or it has returned.
pub data Pass : Type 0 where
  loading : ℕ → ℕ → Pass
  storing : ℕ → ℕ → List Success → Pass
  done : Pass

-- What follows the answer for a block that is not in the cache.
unfoldable pub fetched : Source → ℕ → ℕ → Outcome Block → Pass
fetched src block_num end_block (ok block) =
    storing block_num end_block (successes src block block.transactions)
fetched src block_num end_block (err e) = done
fetched src block_num end_block (panic p) = done

unfoldable pub looked_up : Source → ℕ → ℕ → Option (List Success) → Pass
unfolding fetched
looked_up src block_num end_block (some found) = loading (block_num + 1) end_block
looked_up src block_num end_block none =
    fetched src block_num end_block (src.block_by_number (int64_of_uint64 block_num))

-- A step of a pass, for an end below the greatest uint64, and the cache afterwards.
unfoldable pub pass_step : Source → BlockCache → Pass → Pass × BlockCache
unfolding looked_up
pass_step src cache (loading block_num end_block) =
    if leb block_num end_block
    then (looked_up src block_num end_block (load cache block_num), cache)
    else (done, cache)
pass_step src cache (storing block_num end_block found) =
    (loading (block_num + 1) end_block, store cache block_num found)
pass_step src cache done = (done, cache)

-- The pass for a head: from the last cached block on, if there is one.
unfoldable pub prime_pass : BlockCache → ℕ → Pass
prime_pass cache head =
    let max_cached = max_key cache in
    if ltb 0 max_cached && ltb max_cached head then loading max_cached head else done

-- Where PrimeBlockCache is: in the loop over the channel, where it waits for a head, has taken one, or
-- collects for it; in the last `group.Wait()`; or it has returned.
pub data Primer : Type 0 where
  ranging : Primer
  took : ℕ → Primer
  priming : Pass → Primer
  waiting : Primer
  returned : Option String → Primer

-- `closer` is the goroutine that closes the channel once the group is done. `received` holds the heads
-- that came through, the oldest first. `collecting` is the pass of the main loop.
pub record Heads : Type 0 where
  pub watcher : Watcher
  pub primer : Primer
  pub collecting : Pass
  pub closer : Bool
  pub closed : Bool
  pub ctx_done : Bool
  pub received : List ℕ
  pub cache : BlockCache

-- errgroup cancels the context for the first error.
unfoldable pub end_watcher : Option String → Heads → Heads
end_watcher none s = record s { watcher = ended none }
end_watcher (some e) s = record s { watcher = ended (some e); ctx_done = true }

-- A head goes through the channel.
unfoldable pub receive : ℕ → Heads → Heads
receive head s = record s {
  watcher = watching;
  primer = took head;
  received = s.received ++ head ∷ [];
}

-- A step of PrimeBlockCache's pass, and one of the main loop's.
unfoldable pub prime_step : Source → Pass → Heads → Heads
unfolding pass_step
prime_step src pass s =
    let (next, cache') = pass_step src s.cache pass in
    record s { primer = priming next; cache = cache' }

unfoldable pub collect_step : Source → Heads → Heads
unfolding pass_step
collect_step src s =
    let (next, cache') = pass_step src s.cache s.collecting in
    record s { collecting = next; cache = cache' }

-- `Answers` are the answers that the node and the database may give at a step.
pub data Step (Answers : Source → Type 0) (s : Heads) : Heads → Type 0 where
  subscribes : s.watcher ≡ subscribing → Step Answers s (record s { watcher = watching })
  refused : (e : String) → s.watcher ≡ subscribing → Step Answers s (end_watcher (some e) s)
  context_ends :
      (e : String)
      → s.watcher ≡ watching
      → s.ctx_done ≡ true
      → Step Answers s (end_watcher (some e) s)
  head_comes :
      (head : ℕ) → s.watcher ≡ watching → Step Answers s (record s { watcher = sending head })
  subscription_ends : (e : Option String) → s.watcher ≡ watching → Step Answers s (end_watcher e s)
  hands_over :
      (head : ℕ) → s.watcher ≡ sending head → s.primer ≡ ranging → Step Answers s (receive head s)
  measures :
      (head : ℕ)
      → s.primer ≡ took head
      → Step Answers s (record s { primer = priming (prime_pass s.cache head) })
  primes :
      (src : Source)
      → Answers src
      → (pass : Pass) → s.primer ≡ priming pass
      → Step Answers s (prime_step src pass s)
  primed : s.primer ≡ priming done → Step Answers s (record s { primer = ranging })
  range_ends :
      s.primer ≡ ranging
      → s.closed ≡ true
      → Step Answers s (record s { primer = waiting; closer = true })
  closes :
      (e : Option String)
      → s.closer ≡ true
      → s.watcher ≡ ended e
      → Step Answers s (record s { closed = true })
  returns :
      (e : Option String)
      → s.primer ≡ waiting
      → s.watcher ≡ ended e
      → Step Answers s (record s { primer = returned e })
  collect_starts :
      (start_block end_block : ℕ)
      → s.collecting ≡ done
      → Step Answers s (record s { collecting = loading start_block end_block })
  collects : (src : Source) → Answers src → Step Answers s (collect_step src s)

unfoldable pub start : BlockCache → Heads
start cache = record {
  watcher = subscribing;
  primer = ranging;
  collecting = done;
  closer = false;
  closed = false;
  ctx_done = false;
  received = [];
  cache = cache;
}

pub data Reach (Answers : Source → Type 0) (cache : BlockCache) : Heads → Type 0 where
  here : Reach Answers cache (start cache)
  next : {s t : Heads} → Reach Answers cache s → Step Answers s t → Reach Answers cache t
