-- ===== src/Collector/Cache.antt =====
-- continuous/collector.go: the cache of the transactions found in blocks, and the loop that fills it.
-- The `sync.Map` is an association list.
pub mod Transparent
pub mod Repeat
use shutter_tests.Prelude.{
  ℕ, zero, suc, ◌+◌, ◌-◌, List, [], ◌∷◌, ◌++◌, Option, none, some, lookup, insert, nat_eq, ◌==◌,
  if◌then◌else◌, leb, max, String, Bool, false,
}
use shutter_tests.Prelude.Int.{ℤ, pos}
use shutter_tests.Prelude.Words.{int64_of_uint64, int64_of_big}
use shutter_tests.Prelude.Outcomes.{Outcome, ok, err, panic}
use shutter_tests.Chain.{Crypto, Transaction}

-- A submitted transaction that was found in a block.
pub record Success : Type 0 where
  pub trigger : ℤ
  pub included : ℤ
  pub validator_index : ℤ
  pub graffiti : String
  pub decrypted_tx_hash : ℕ

abbrev pub BlockCache : Type 0
BlockCache = List (ℕ × List Success)

unfoldable pub load : BlockCache → ℕ → Option (List Success)
load b key = lookup key b

unfoldable pub store : BlockCache → ℕ → List Success → BlockCache
store b key value = insert key value b

unfoldable pub max_key : BlockCache → ℕ
max_key [] = 0
max_key ((k, v) ∷ b) = max k (max_key b)

pub record Block : Type 0 where
  pub number : ℕ
  pub transactions : List Transaction

-- What the node and the database answer during one pass, a value or an error, and the address of the
-- submit account. Their calls do not panic; those cases below only make the functions total.
pub record Source : Type 0 where
  pub block_by_number : ℤ → Outcome Block
  pub validator_info : ℤ → Outcome (Option (Option ℤ × String))
  pub hash : Transaction → ℕ
  pub submit_address : ℕ

-- queryValidatorInfoForBlock, with the row of the database, if there is one: the validator index of a
-- block without a proposer is NULL, which does not scan into an int64.
unfoldable pub query_validator_info_for_block :
    Outcome (Option (Option ℤ × String)) → Outcome (ℤ × String)
query_validator_info_for_block (ok (some (some validator_index, graffiti))) =
    ok (validator_index, graffiti)
query_validator_info_for_block (ok (some (none, graffiti))) = err "cannot scan NULL into *int64"
query_validator_info_for_block (ok none) = err "no rows in result set"
query_validator_info_for_block (err e) = err e
query_validator_info_for_block (panic p) = panic p

-- The values that take the place of an error.
unfoldable pub validator_or_blank : Outcome (ℤ × String) → ℤ × String
validator_or_blank (ok r) = r
validator_or_blank (err e) = (pos 0, "")
validator_or_blank (panic p) = (pos 0, "")

unfoldable pub success_of : Source → Block → Transaction → Success
unfolding validator_or_blank query_validator_info_for_block
success_of src block tx =
    let number = int64_of_uint64 block.number in
    let (validator_index, graffiti) =
      validator_or_blank (query_validator_info_for_block (src.validator_info number)) in
    record {
      trigger = int64_of_big tx.value;
      included = number;
      validator_index = validator_index;
      graffiti = graffiti;
      decrypted_tx_hash = src.hash tx;
    }

is_to : Option ℕ → ℕ → Bool
is_to none address = false
is_to (some a) address = a == address

-- The inner loop, over the transactions of a block.
unfoldable pub successes : Source → Block → List Transaction → List Success
unfolding is_to success_of
successes src block [] = []
successes src block (tx ∷ txs) =
    let rest = successes src block txs in
    if is_to tx.to src.submit_address then success_of src block tx ∷ rest else rest

-- One round of the outer loop: the transactions of a block, from the cache or from the node, and the
-- cache afterwards. `none`: the block cannot be fetched.
unfoldable pub block_successes : Source → BlockCache → ℕ → Option (List Success × BlockCache)
unfolding load store
block_successes src cache block_num = elim (load cache block_num) [
  | some found ↦ some (found, cache)
  | none ↦ elim (src.block_by_number (int64_of_uint64 block_num)) [
    | ok block ↦
        let found = successes src block block.transactions in
        some (found, store cache block_num found)
    | err e ↦ none
    | panic p ↦ none
  ]
]

-- The outer loop, with the number of blocks left, the next block, the cache and `result`. If a block
-- cannot be fetched, what was found so far is returned, with no error.
unfoldable pub collect_loop : Source → ℕ → ℕ → BlockCache → List Success → List Success × BlockCache
collect_loop src zero block_num cache result = (result, cache)
collect_loop src (suc n) block_num cache result = elim (block_successes src cache block_num) [
  | none ↦ (result, cache)
  | some (found, cache') ↦ collect_loop src n (block_num + 1) cache' (result ++ found)
]

-- The number of rounds of `for blockNum := startBlock; blockNum <= endBlock; blockNum++`, for an end
-- below the greatest uint64.
unfoldable pub rounds : ℕ → ℕ → ℕ
rounds start_block end_block = end_block + 1 - start_block

unfoldable pub collect_submit_incoming_tx : Source → ℕ → ℕ → BlockCache → List Success × BlockCache
unfolding collect_loop rounds
collect_submit_incoming_tx src start_block end_block cache =
    collect_loop src (rounds start_block end_block) start_block cache []
