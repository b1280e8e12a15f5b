-- ===== src/Collector/Prime.antt =====
-- continuous/collector.go: PrimeBlockCache, on the heads that WatchHeads passes on. The channel and
-- the goroutines around it are left out; the error of collecting is ignored there.
pub mod Agreement
use shutter_tests.Prelude.{ℕ, ◌&&◌, List, [], ◌∷◌, ltb, if◌then◌else◌}
use shutter_tests.Collector.Cache.{BlockCache, Source, max_key, collect_submit_incoming_tx}

-- One head: the blocks from the last cached one on are collected, if there is one.
unfoldable pub prime_one : Source → BlockCache → ℕ → BlockCache
prime_one src cache head =
    let max_cached = max_key cache in
    if ltb 0 max_cached && ltb max_cached head
    then (collect_submit_incoming_tx src max_cached head cache).1
    else cache

unfoldable pub prime_block_cache : Source → BlockCache → List ℕ → BlockCache
unfolding prime_one
prime_block_cache src cache [] = cache
prime_block_cache src cache (head ∷ heads) = prime_block_cache src (prime_one src cache head) heads
