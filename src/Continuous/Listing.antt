-- ===== src/Continuous/Listing.antt =====
-- continuous/: the texts of transactions, String of a ShutterTx in tx.go and PrintAllTx in
-- continuous.go. The two transactions of a ShutterTx are never nil: SendShutterizedTX, which makes it,
-- has them both.
use shutter_tests.Prelude.{
  ℕ, suc, ◌+◌, ◌-◌, ◌≡◌, refl, ap, arith, String, List, [], ◌∷◌, ◌++◌, length, length-append,
  replicate,
}
use shutter_tests.Prelude.Int.{ℤ}
use shutter_tests.Prelude.Text.{codes}
use shutter_tests.Prelude.Decimal.{decimal, decimal_ℤ}
use shutter_tests.Prelude.Outcomes.{Outcome, ok, ◌>>=◌}
use shutter_tests.Chain.{Transaction}
use shutter_tests.Continuous.Tx.{ShutterTx, enum_index, tx_status_string}
use shutter_tests.Continuous.Tx.Names.{tx_status_string-enum_index}
use shutter_tests.Continuous.Status.{Status, Store, tx_count}

-- go-ethereum's texts, of the address of the account with an index and of the hash of a transaction.
pub record TxDisplay : Type 0 where
  pub address_hex : ℕ → List ℕ
  pub hash_hex : Transaction → List ℕ

-- `%8d`.
unfoldable pub right_aligned : ℤ → List ℕ
right_aligned n = replicate (8 - length (decimal_ℤ n)) b' ' ++ decimal_ℤ n

-- `\t%8d`, behind a label.
unfoldable pub block_entry : String → ℤ → List ℕ
unfolding right_aligned
block_entry label block = codes label ++ (9 ∷ right_aligned block)

-- `\t%v n:%v`, the hash and the nonce.
unfoldable pub tx_entry : TxDisplay → Transaction → List ℕ
tx_entry d tx = (9 ∷ d.hash_hex tx) ++ (codes " n:" ++ decimal tx.nonce)

unfoldable pub shutter_tx_string : TxDisplay → ShutterTx → Outcome (List ℕ)
unfolding block_entry tx_entry
shutter_tx_string d tx = do
  name ← tx_status_string (enum_index tx.tx_status)
  ok (
      (codes "ShutterTx[" ++ (codes name ++ (codes "]\t" ++ d.address_hex tx.sender)))
      ++ (10 ∷ block_entry "\ttrigger:" tx.trigger_block)
      ++ (10 ∷ (block_entry "\tsubmit :" tx.submission_block ++ tx_entry d tx.outer_tx))
      ++ (10 ∷ (block_entry "\tinclude:" tx.inclusion_block ++ tx_entry d tx.inner_tx))
      ++ (10 ∷ block_entry "\tcancel :" tx.cancel_block))

-- One of the loops of PrintAllTx.
unfoldable pub print_list : TxDisplay → Store → List ℕ → Outcome (List (List ℕ))
unfolding shutter_tx_string
print_list d store [] = ok []
print_list d store (p ∷ ps) = do
  text ← shutter_tx_string d (store p)
  rest ← print_list d store ps
  ok (text ∷ rest)

unfoldable pub print_all_tx : TxDisplay → Store → Status → Outcome (List (List ℕ))
unfolding print_list
print_all_tx d store s = do
  in_flight ← print_list d store s.tx_in_flight
  done ← print_list d store s.tx_done
  ok ((codes "INFLIGHT" ∷ in_flight) ++ (codes "DONE" ∷ done))

-- Every transaction has a text, since its status always has a name.
shutter_tx_string-ok :
    (d : TxDisplay) (tx : ShutterTx) → (text : List ℕ) × (shutter_tx_string d tx ≡ ok text)
unfolding shutter_tx_string
shutter_tx_string-ok d tx = rw (tx_status_string-enum_index tx.tx_status) (_, refl)

print_list-ok :
    (d : TxDisplay) (store : Store) (ps : List ℕ)
    → (texts : List (List ℕ)) × (print_list d store ps ≡ ok texts) × (length texts ≡ length ps)
unfolding print_list
print_list-ok d store [] = ([], refl, refl)
print_list-ok d store (p ∷ ps) =
    let (text, e) = shutter_tx_string-ok d (store p) in
    let (texts, f, n) = print_list-ok d store ps in (text ∷ texts, rw (e, f) refl, ap suc n)

-- PrintAllTx prints a text for every transaction, in flight or done, and the two titles.
pub print_all_tx-counts :
    (d : TxDisplay) (store : Store) (s : Status)
    → (lines : List (List ℕ)) × (print_all_tx d store s ≡ ok lines)
      × (length lines ≡ 2 + tx_count s)
unfolding print_all_tx tx_count
print_all_tx-counts d store s =
    let (in_flight, e, n) = print_list-ok d store s.tx_in_flight in
    let (done, f, k) = print_list-ok d store s.tx_done in
    (
      (codes "INFLIGHT" ∷ in_flight) ++ (codes "DONE" ∷ done),
      rw (e, f) refl,
      omega (arith, n, k, length-append (codes "INFLIGHT" ∷ in_flight) (codes "DONE" ∷ done)),
    )
