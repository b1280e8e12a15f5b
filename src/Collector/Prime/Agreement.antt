-- ===== src/Collector/Prime/Agreement.antt =====
-- continuous/collector.go: what priming does to the cache.
use shutter_tests.Prelude.{ℕ, ◌≡◌, refl, List, [], ◌∷◌, Bool-cases, inl, inr, ltb, ◌&&◌}
use shutter_tests.Collector.Cache.{BlockCache, Source, max_key}
use shutter_tests.Collector.Cache.Transparent.{Agrees, collect-uncached}
use shutter_tests.Collector.Prime.{prime_one, prime_block_cache}

pub prime_one-Agrees :
    (src : Source) (cache : BlockCache) (head : ℕ)
    → Agrees src cache
    → Agrees src (prime_one src cache head)
unfolding prime_one
prime_one-Agrees src cache head agrees =
    elim (Bool-cases (ltb 0 (max_key cache) && ltb (max_key cache) head)) [
      | inl t ↦ rw t (collect-uncached src (max_key cache) head cache agrees).1
      | inr f ↦ rw f agrees
    ]

stays_empty : (src : Source) (heads : List ℕ) → prime_block_cache src [] heads ≡ []
unfolding prime_block_cache prime_one max_key
stays_empty src [] = refl
stays_empty src (head ∷ heads) = stays_empty src heads

prime-Agrees_from :
    (src : Source) (cache : BlockCache) (heads : List ℕ)
    → Agrees src cache
    → Agrees src (prime_block_cache src cache heads)
unfolding prime_block_cache
prime-Agrees_from src cache [] agrees = agrees
prime-Agrees_from src cache (head ∷ heads) agrees =
    prime-Agrees_from src (prime_one src cache head) heads (prime_one-Agrees src cache head agrees)

-- Priming keeps the cache in agreement with the chain, so it changes no later result; and it never
-- puts anything into an empty cache, whatever heads come.
pub prime_block_cache-Agrees :
    (src : Source) (cache : BlockCache) (heads : List ℕ)
    → Agrees src cache
    → Agrees src (prime_block_cache src cache heads) × (prime_block_cache src [] heads ≡ [])
prime_block_cache-Agrees src cache heads agrees =
    (prime-Agrees_from src cache heads agrees, stays_empty src heads)
