-- ===== src/Collector/Cache/Transparent.antt =====
-- continuous/collector.go: a cache that agrees with the chain does not change what is collected.
use shutter_tests.Prelude.{
  String, ℕ, zero, suc, ◌+◌, ◌-◌, ◌≤◌, ◌≡◌, refl, sym, ap, ◌∙◌, List, [], ◌++◌, none, some, lookup,
  lookup-insert, nat_eq, ◌==◌, Bool-cases, Option-cases, inl, inr, arith, subst, ==→≡,
}
use mathlib.Core.List.{append_assoc, append-nil}
use shutter_tests.Prelude.Words.{int64_of_uint64}
use shutter_tests.Prelude.Outcomes.{Outcome-cases, ok, err, panic}
use shutter_tests.Collector.Cache.{
  Success, BlockCache, load, store, Block, Source, successes, block_successes, collect_loop,
  collect_submit_incoming_tx, rounds,
}

-- Every entry is what the node would give.
abbrev pub Agrees : Source → BlockCache → Type 0
Agrees src cache =
    (b : ℕ) (found : List Success)
    → load cache b ≡ some found
    → (block : Block) × (src.block_by_number (int64_of_uint64 b) ≡ ok block)
      × (found ≡ successes src block block.transactions)

-- The collection with no cache: block by block from the node, up to the first that fails.
pub uncached : Source → ℕ → ℕ → List Success
uncached src zero b = []
uncached src (suc n) b =
    let rest = uncached src n (b + 1) in
    elim (src.block_by_number (int64_of_uint64 b)) [
      | ok block ↦ successes src block block.transactions ++ rest
      | err e ↦ []
      | panic p ↦ []
    ]

store-Agrees :
    (src : Source) (cache : BlockCache) (b : ℕ) (block : Block)
    → Agrees src cache
    → src.block_by_number (int64_of_uint64 b) ≡ ok block
    → Agrees src (store cache b (successes src block block.transactions))
unfolding store load
store-Agrees src cache b block agrees e c found h = elim (Bool-cases (b == c)) [
  | inl t ↦ (
    block,
    subst (λ k. src.block_by_number (int64_of_uint64 k) ≡ ok block) (==→≡ b c t) e,
    ground (arith, lookup-insert b c (successes src block block.transactions) cache),
  )
  | inr f ↦
      agrees c found
        (ground (arith, lookup-insert b c (successes src block block.transactions) cache))
]

-- A round with a cache that agrees: it finds what the node would give, or the node fails.
data Round (src : Source) (cache : BlockCache) (b : ℕ) : Type 0 where
  finds :
      (block : Block) (cache' : BlockCache)
      → src.block_by_number (int64_of_uint64 b) ≡ ok block
      → block_successes src cache b ≡ some (successes src block block.transactions, cache')
      → Agrees src cache'
      → Round src cache b
  fails :
      block_successes src cache b ≡ none
      → ((n : ℕ) → uncached src (suc n) b ≡ [])
      → Round src cache b

round : (src : Source) (cache : BlockCache) (b : ℕ) → Agrees src cache → Round src cache b
unfolding block_successes uncached
round src cache b agrees = elim (Option-cases (load cache b)) [
  | inr (found, hit) ↦
      let (block, e, same) = agrees b found hit in
      finds block cache e (rw (hit, block_successes) (rw same)) agrees
  | inl miss ↦ elim (Outcome-cases (src.block_by_number (int64_of_uint64 b))) [
    | inl (block, e) ↦
        finds block (store cache b (successes src block block.transactions)) e
          (rw (miss, e, block_successes)) (store-Agrees src cache b block agrees e)
    | inr (inl (x, e)) ↦ fails (rw (miss, e, block_successes)) (λ n. rw (e, uncached))
    | inr (inr (x, e)) ↦ fails (rw (miss, e, block_successes)) (λ n. rw (e, uncached))
  ]
]

collect_loop-uncached :
    (src : Source) (n b : ℕ) (cache : BlockCache) (result : List Success)
    → Agrees src cache
    → ((collect_loop src n b cache result).0 ≡ result ++ uncached src n b)
      × Agrees src (collect_loop src n b cache result).1
unfolding collect_loop uncached
collect_loop-uncached src zero b cache result agrees = (sym (append-nil result), agrees)
collect_loop-uncached src (suc n) b cache result agrees = elim (round src cache b agrees) [
  | finds block cache' e f agrees' ↦
      let later =
        collect_loop-uncached src n (b + 1) cache'
          (result ++ successes src block block.transactions) agrees' in
      rw (e, f, collect_loop, uncached)
        (
          later.0
              ∙ append_assoc result (successes src block block.transactions)
                  (uncached src n (b + 1)),
          later.1,
        )
  | fails f e ↦
      rw (f, collect_loop) (sym (append-nil result) ∙ ap (◌++◌ result) (sym (e n)), agrees)
]

-- With a cache that agrees with the chain, collecting finds what it would find with no cache: the
-- transactions of every block of the range, in order, up to the first block that the node does not
-- give. The cache that it leaves agrees too.
pub collect-uncached :
    (src : Source) (start_block end_block : ℕ) (cache : BlockCache)
    → Agrees src cache
    → let r = collect_submit_incoming_tx src start_block end_block cache in
      (r.0 ≡ uncached src (rounds start_block end_block) start_block) × Agrees src r.1
unfolding collect_submit_incoming_tx
collect-uncached src start_block end_block cache agrees =
    collect_loop-uncached src (rounds start_block end_block) start_block cache [] agrees

-- An error of the node is swallowed: the call returns what it found before, as if the range ended
-- there.
pub collect-swallows_error :
    (src : Source) (start_block end_block : ℕ) (e : String)
    → start_block ≤ end_block
    → src.block_by_number (int64_of_uint64 start_block) ≡ err e
    → collect_submit_incoming_tx src start_block end_block [] ≡ ([], [])
unfolding collect_submit_incoming_tx rounds collect_loop block_successes load lookup
collect-swallows_error src start_block end_block e le h =
    rw (more, collect_loop, h, block_successes) refl
  where
    more : end_block + 1 - start_block ≡ suc (end_block - start_block)
    more = omega arith
