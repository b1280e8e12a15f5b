-- ===== src/Continuous/SendExamples.antt =====
-- continuous/: sending a transaction and polling for blocks, on small inputs.
use shutter_tests.Prelude.{true, ◌≡◌, refl, arith, List, [], ◌∷◌, Option, none, some}
use shutter_tests.Prelude.Int.{ℤ, pos, ◌+ℤ◌, ◌<ℤ◌}
use shutter_tests.Prelude.Outcomes.{Outcome, ok}
use shutter_tests.Chain.{Transaction}
use shutter_tests.Utils.Account.{sign, use_nonce, opts}
use shutter_tests.Utils.Eon.{get_eon_key}
use shutter_tests.Utils.Gas.{gas_calculation_from_client}
use shutter_tests.Continuous.System.{initial, next_account}
use shutter_tests.Continuous.Status.{tx_count}
use shutter_tests.Continuous.Forfeit.{ForfeitCalls, forfeit_nonce}
use shutter_tests.Continuous.Forfeit.Replaces.{IsReplaced, forfeit_nonce-IsReplaced}
use shutter_tests.Utils.Wait.{new_head, no_error, wait_for_tx_subscribe}
use shutter_tests.Continuous.RunLoop.{run_continuous}
use shutter_tests.Continuous.RunLoop.Ranges.{StartsAt, Spread, run_continuous-Regular}
use shutter_tests.Continuous.Accounts.{FundCalls}
use shutter_tests.Utils.Repair.{new_transaction}
use shutter_tests.Continuous.Send.{pick_account, inner_transaction, send_shutterized_tx}
use shutter_tests.Continuous.Send.Effects.{IsSent, send-IsSent}
use shutter_tests.Continuous.Blocks.{
  ShutterBlock, GraffitiRow, GraffitiSet, Rows, query_all_graffiti, query_newest_shutter_block,
  poll_graffiti, poll_standard,
}
use shutter_tests.Continuous.Blocks.Order.{
  Spaced, Increasing, query_all_graffiti-Spaced, poll_standard-Increasing,
}
use shutter_tests.Continuous.Samples.{plain, fees, answering, tester, two_accounts, sent_state}

send-IsSent_example : IsSent tester (pos 5) (pos 0) two_accounts initial sent_state.0 sent_state.1
unfolding send_shutterized_tx pick_account get_eon_key gas_calculation_from_client sign use_nonce
    opts inner_transaction next_account initial tx_count
send-IsSent_example =
    send-IsSent plain answering (pos 5) (pos 0) two_accounts sent_state.0 initial sent_state.1
      tester refl refl

abbrev slot_row : ℤ → Outcome GraffitiRow
slot_row slot = ok (record {
  next_slot = slot;
  validator_index = pos 3;
  graffiti = "shutter";
  block_number = pos 9;
  ts = some (pos 1000);
})

abbrev graffitis : GraffitiSet
graffitis = ("shutter", true) ∷ []

abbrev slot_rows : List (Outcome GraffitiRow)
slot_rows = slot_row (pos 20) ∷ slot_row (pos 21) ∷ slot_row (pos 22) ∷ []

query_all_graffiti-Spaced_example : Spaced (pos 0) (poll_graffiti graffitis slot_rows (pos 0))
unfolding query_all_graffiti
query_all_graffiti-Spaced_example =
    query_all_graffiti-Spaced (ok ([], none)) graffitis slot_rows
      (poll_graffiti graffitis slot_rows (pos 0)) (omega arith) refl

abbrev later_row : ℤ → Option ℤ → Rows (ℤ × Option ℤ)
later_row block none = ok ((block, some (pos 1)) ∷ [], none)
later_row block (some t) = ok ((block, some (t +ℤ pos 5)) ∷ [], none)

later_row-IsLater : (block u v : ℤ) → some (u +ℤ pos 5) ≡ some v → u <ℤ v
unfolding ◌+ℤ◌
later_row-IsLater block u v e = ground (arith, e)

abbrev polled : List ShutterBlock
polled =
    record { number = pos 8; ts = some (pos 105); targeted_slot = pos 0 }
    ∷ record { number = pos 9; ts = some (pos 110); targeted_slot = pos 0 }
    ∷ []

poll_standard-Increasing_example : Increasing (pos 100) polled
unfolding poll_standard query_newest_shutter_block ◌+ℤ◌
poll_standard-Increasing_example =
    poll_standard-Increasing (later_row (pos 8) ∷ later_row (pos 9) ∷ []) (pos 100) polled
      ((λ u. (later_row-IsLater (pos 8) u, tt)), ((λ u. (later_row-IsLater (pos 9) u, tt)), tt))
      refl

abbrev forfeit_calls : ForfeitCalls
forfeit_calls = record {
  chain_id = ok (pos 100);
  suggest_tip = ok (pos 1);
  suggest_price = ok (pos 2);
  gas_price_fn = fees;
  send_transaction = λ tx. none;
  subscription = none;
  events =
      new_head
        (λ hash. (some (record { status = 1; block_number = 9; gas_used = 21000 }), no_error))
      ∷ [];
}

forfeit_nonce-IsReplaced_example : IsReplaced plain forfeit_calls 4 tester
unfolding forfeit_nonce gas_calculation_from_client sign wait_for_tx_subscribe
forfeit_nonce-IsReplaced_example = forfeit_nonce-IsReplaced plain forfeit_calls 4 tester refl

run_continuous-Regular_example :
    let calls =
      run_continuous
        ((pos 40, pos 1000) ∷ (pos 41, pos 1013) ∷ (pos 43, pos 1020) ∷ [])
        (record { start_block = 0; last_stats = pos 995 }) in
    StartsAt 40 calls × Spread (pos 995) calls
run_continuous-Regular_example =
    run_continuous-Regular 40 (pos 1000) (pos 995) ((pos 41, pos 1013) ∷ (pos 43, pos 1020) ∷ [])
      (omega arith) (omega arith)

abbrev fund_calls : FundCalls
fund_calls = record {
  balance = ok (pos 10);
  gas_price = ok (pos 2);
  send_transaction = λ tx. none;
  wait_mined = none;
}

abbrev funding_transaction : Transaction
funding_transaction = record (new_transaction 8 101 (pos 90) 21000 (pos 2)) { signature = some 2 }
