-- ===== src/Collector/Cache/Repeat.antt =====
-- continuous/collector.go: what was collected once is found in the cache from then on.
use mathlib.Core.List.{append_assoc, append-nil}
use shutter_tests.Prelude.{
  ℕ, zero, suc, ◌+◌, ◌≡◌, sym, ap, ◌∙◌, subst, List, [], ◌++◌, none, some, lookup-insert,
  lookup-insert_self, nat_eq, ==→≡, Option-cases, inl, inr, arith,
}
use shutter_tests.Prelude.Words.{int64_of_uint64}
use shutter_tests.Prelude.Outcomes.{ok}
use shutter_tests.Collector.Cache.{
  Success, BlockCache, load, store, Block, Source, successes, block_successes, collect_loop,
  collect_submit_incoming_tx, rounds,
}

-- The node gives the n blocks from b on.
abbrev pub Fetchable : Source → ℕ → ℕ → Type 0
Fetchable src zero b = Unit
Fetchable src (suc n) b =
    ((block : Block) × (src.block_by_number (int64_of_uint64 b) ≡ ok block))
    × Fetchable src n (b + 1)

Loaded : BlockCache → ℕ → ℕ → Type 0
Loaded cache zero b = Unit
Loaded cache (suc n) b =
    ((found : List Success) × (load cache b ≡ some found)) × Loaded cache n (b + 1)

abbrev Extends : BlockCache → BlockCache → Type 0
Extends cache cache' =
    (b : ℕ) (found : List Success) → load cache b ≡ some found → load cache' b ≡ some found

-- What a pass that is served by the cache alone returns.
cached : BlockCache → ℕ → ℕ → List Success
cached cache zero b = []
cached cache (suc n) b =
    let rest = cached cache n (b + 1) in
    elim (load cache b) [ none ↦ [] | some found ↦ found ++ rest ]

-- A round in which the node gives the block.
record Hit (src : Source) (cache : BlockCache) (b : ℕ) : Type 0 where
  found : List Success
  cache' : BlockCache
  gives : block_successes src cache b ≡ some (found, cache')
  kept : load cache' b ≡ some found
  extends : Extends cache cache'

hit :
    (src : Source) (cache : BlockCache) (b : ℕ) (block : Block)
    → src.block_by_number (int64_of_uint64 b) ≡ ok block
    → Hit src cache b
unfolding block_successes store load
hit src cache b block e = elim (Option-cases (load cache b)) [
  | inr (found, h) ↦ record {
    found = found;
    cache' = cache;
    gives = rw (h, block_successes);
    kept = h;
    extends = λ c f k. k;
  }
  | inl miss ↦ record {
    found = successes src block block.transactions;
    cache' = store cache b (successes src block block.transactions);
    gives = rw (miss, e, block_successes);
    kept = lookup-insert_self b (successes src block block.transactions) cache;
    extends = λ c f k.
        ground
          (arith, lookup-insert b c (successes src block block.transactions) cache, ==→≡ b c, miss);
  }
]

served :
    (src : Source) (cache : BlockCache) (b : ℕ) (found : List Success)
    → load cache b ≡ some found
    → block_successes src cache b ≡ some (found, cache)
unfolding block_successes
served src cache b found h = rw (h, block_successes)

-- A pass served by the cache reads nothing from the source.
loop_from_cache :
    (src : Source) (n b : ℕ) (cache : BlockCache) (result : List Success)
    → Loaded cache n b
    → collect_loop src n b cache result ≡ (result ++ cached cache n b, cache)
unfolding collect_loop cached Loaded
loop_from_cache src zero b cache result l = rw (append-nil result)
loop_from_cache src (suc n) b cache result ((found, h), l) =
    rw (served src cache b found h, collect_loop, h, cached)
      (loop_from_cache src n (b + 1) cache (result ++ found) l
        ∙ ap (λ (r : List Success). (r, cache))
            (append_assoc result found (cached cache n (b + 1))))

Loaded-Extends :
    (cache cache' : BlockCache) (n b : ℕ)
    → Extends cache cache'
    → Loaded cache n b
    → Loaded cache' n b
unfolding Loaded
Loaded-Extends cache cache' zero b e l = tt
Loaded-Extends cache cache' (suc n) b e ((found, h), l) =
    ((found, e b found h), Loaded-Extends cache cache' n (b + 1) e l)

-- What a pass that started with `cache` and `result` leaves.
abbrev Fills : BlockCache → List Success → ℕ → ℕ → List Success × BlockCache → Type 0
Fills cache result n b r = Loaded r.1 n b × (r.0 ≡ result ++ cached r.1 n b) × Extends cache r.1

one_round :
    (src : Source) (n b : ℕ) (cache : BlockCache) (result : List Success) (t : Hit src cache b)
    → collect_loop src (suc n) b cache result
      ≡ collect_loop src n (b + 1) t.cache' (result ++ t.found)
unfolding collect_loop
one_round src n b cache result t = rw (t.gives, collect_loop)

cached_next :
    (cache : BlockCache) (n b : ℕ) (found : List Success)
    → load cache b ≡ some found
    → cached cache (suc n) b ≡ found ++ cached cache n (b + 1)
unfolding cached
cached_next cache n b found h = rw (h, cached)

loop-Fills :
    (src : Source) (n b : ℕ) (cache : BlockCache) (result : List Success)
    → Fetchable src n b
    → Fills cache result n b (collect_loop src n b cache result)
unfolding collect_loop cached Loaded
loop-Fills src zero b cache result f = (tt, sym (append-nil result), λ c g k. k)
loop-Fills src (suc n) b cache result ((block, e), f) =
    let t = hit src cache b block e in
    let r = collect_loop src n (b + 1) t.cache' (result ++ t.found) in
    let later = loop-Fills src n (b + 1) t.cache' (result ++ t.found) f in
    let k = later.2 b t.found t.kept in
    subst (Fills cache result (suc n) b) (sym (one_round src n b cache result t)) (
      ((t.found, k), later.0),
      later.1
          ∙ append_assoc result t.found _
          ∙ ap (◌++◌ result) (sym (cached_next r.1 n b t.found k)),
      λ c g m. later.2 c g (t.extends c g m),
    )

-- Once every block of a range was given by the node, collecting that range again returns the same
-- and leaves the cache as it is, whatever the node and the database then answer.
pub collect_again :
    (src src' : Source) (start_block end_block : ℕ) (cache : BlockCache)
    → Fetchable src (rounds start_block end_block) start_block
    → let r = collect_submit_incoming_tx src start_block end_block cache in
      collect_submit_incoming_tx src' start_block end_block r.1 ≡ r
unfolding collect_submit_incoming_tx
collect_again src src' start_block end_block cache f =
    let n = rounds start_block end_block in
    let first = loop-Fills src n start_block cache [] f in
    loop_from_cache src' n start_block _ [] first.0 ∙ λ i.
    (sym first.1 i, (collect_loop src n start_block cache []).1)
