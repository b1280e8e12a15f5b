-- ===== src/Utils/Wait.antt =====
-- utils/utils.go: waiting for a transaction, looking for its receipt at each new block. What the
-- `select` receives comes as a list of events, in the order in which it takes them.
pub mod Decisive
use shutter_tests.Prelude.{ℕ, String, List, [], ◌∷◌, Option, none, some}
use shutter_tests.Chain.{Receipt, Transaction, Crypto}

-- The error of `client.TransactionReceipt`: nil, ethereum.NotFound, or another.
pub data LookupError : Type 0 where
  no_error not_found : LookupError
  other_error : String → LookupError

-- A new head comes with what the node then answers for the hash of a transaction.
pub data WaitEvent : Type 0 where
  ctx_done : String → WaitEvent
  new_head : (ℕ → Option Receipt × LookupError) → WaitEvent
  sub_error : Option String → WaitEvent

-- What the call returns: a receipt, which may be nil, and an error, which may be nil.
pub record Waited : Type 0 where
  pub receipt : Option Receipt
  pub error : Option String

abbrev pub answer : Option Receipt → Option String → Option Waited
answer r e = some (record { receipt = r; error = e })

-- The lookup at a new head ends the wait, or the loop goes on with `rest`.
unfoldable pub after_lookup : Option Receipt × LookupError → Option Waited → Option Waited
after_lookup (some r, no_error) rest = answer (some r) none
after_lookup (none, no_error) rest = rest
after_lookup (r, not_found) rest = rest
after_lookup (r, other_error e) rest = rest

-- The loop, with the hash that is looked up and the variable `receipt`. `none`: it waits after the last
-- event.
unfoldable pub wait_loop : ℕ → Option Receipt → List WaitEvent → Option Waited
unfolding after_lookup
wait_loop hash receipt [] = none
wait_loop hash receipt (ctx_done e ∷ es) = answer receipt (some e)
wait_loop hash receipt (new_head lookup ∷ es) =
    after_lookup (lookup hash) (wait_loop hash (lookup hash).0 es)
wait_loop hash receipt (sub_error e ∷ es) = answer receipt e

-- `subscription` is the error of SubscribeNewHead.
unfoldable pub wait_for_tx_subscribe :
    Crypto → Transaction → Option String → List WaitEvent → Option Waited
unfolding wait_loop
wait_for_tx_subscribe c tx (some e) es = answer none (some e)
wait_for_tx_subscribe c tx none es = wait_loop (c.hash tx) none es
