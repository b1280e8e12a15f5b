-- ===== src/Utils/Receipts.antt =====
-- utils/utils.go: CountAndLog, the waits for a mined transaction, and CreateRandomAddress. The text of a
-- block number stands for the number, which it determines; only the order of the lines is the texts'.
pub mod Counts
use shutter_tests.Prelude.{
  ℕ, ◌+◌, ◌%◌, String, Bool, true, false, List, [], ◌∷◌, map, Option, none, some, ltb, nat_beq,
  lookup, insert, nat_eq, if◌then◌else◌,
}
use shutter_tests.Prelude.Words.{uint64_add}
use shutter_tests.Prelude.Decimal.{decimal}
use shutter_tests.Prelude.Outcomes.{Outcome, ok, err, or_error, ◌>>=◌}
use shutter_tests.Chain.{Receipt, Crypto}

-- Reading a key that is not in the map gives 0.
unfoldable pub value_at : ℕ → List (ℕ × ℕ) → ℕ
value_at key m = elim (lookup key m) [ none ↦ 0 | some v ↦ v ]

-- `c[n]++` of a uint16.
unfoldable pub count_one : Receipt → List (ℕ × ℕ) → List (ℕ × ℕ)
unfolding value_at
count_one r c = insert r.block_number ((value_at r.block_number c + 1) % 65536) c

-- `g[n] += receipt.GasUsed`.
unfoldable pub add_gas : Receipt → List (ℕ × ℕ) → List (ℕ × ℕ)
unfolding value_at
add_gas r g = insert r.block_number (uint64_add (value_at r.block_number g) r.gas_used) g

unfoldable pub count_loop : List Receipt → List (ℕ × ℕ) → List (ℕ × ℕ) → List (ℕ × ℕ) × List (ℕ × ℕ)
unfolding count_one add_gas
count_loop [] c g = (c, g)
count_loop (r ∷ receipts) c g = count_loop receipts (count_one r c) (add_gas r g)

-- The order of strings.
unfoldable pub text_ltb : List ℕ → List ℕ → Bool
text_ltb [] [] = false
text_ltb [] (d ∷ ds) = true
text_ltb (c ∷ cs) [] = false
text_ltb (c ∷ cs) (d ∷ ds) = if ltb c d then true else if nat_beq c d then text_ltb cs ds else false

-- `sort.Strings` on the texts of the keys.
unfoldable pub insert_key : ℕ → List ℕ → List ℕ
unfolding text_ltb
insert_key key [] = key ∷ []
insert_key key (k ∷ keys) =
    if text_ltb (decimal k) (decimal key) then k ∷ insert_key key keys else key ∷ k ∷ keys

unfoldable pub sort_keys : List (ℕ × ℕ) → List ℕ
unfolding insert_key
sort_keys [] = []
sort_keys ((key, v) ∷ m) = insert_key key (sort_keys m)

pub record Line : Type 0 where
  pub block : ℕ
  pub txs : ℕ
  pub gas_used : ℕ

-- CountAndLog: the lines that it logs.
unfoldable pub count_and_log : List Receipt → List Line
unfolding count_loop value_at sort_keys
count_and_log receipts =
    let (c, g) = count_loop receipts [] [] in
    map (λ n. record { block = n; txs = value_at n c; gas_used = value_at n g }) (sort_keys c)

-- WaitForTxCtx and WaitForTxTimeout, with what `bind.WaitMined` answers before the context is done.
unfoldable pub wait_for_tx_ctx : Outcome Receipt → Outcome Receipt
wait_for_tx_ctx mined = do
  receipt ← or_error mined "error on WaitMined"
  if nat_beq receipt.status 1 then ok receipt else err "included tx failed"

unfoldable pub wait_for_tx_timeout : Outcome Receipt → Outcome Receipt
wait_for_tx_timeout mined = do
  receipt ← or_error mined "error on WaitMined"
  if nat_beq receipt.status 1 then ok receipt else err "included tx failed"

-- CreateRandomAddress, with the key that is generated.
unfoldable pub create_random_address : Crypto → Outcome ℕ → Outcome ℕ
create_random_address c generated = do
  private_key ← or_error generated "could not generate random key"
  ok (c.address_of_key private_key)
