-- ===== src/Continuous/RunExamples.antt =====
-- continuous/: a run of three transactions from two accounts.
use shutter_tests.Prelude.{◌≡◌, refl, arith}
use shutter_tests.Prelude.Int.{ℤ, pos, ◌+ℤ◌}
use shutter_tests.Prelude.Words.{uint64_of_big}
use shutter_tests.Utils.Account.{sign, use_nonce, opts}
use shutter_tests.Utils.Eon.{get_eon_key}
use shutter_tests.Utils.Gas.{gas_calculation_from_client}
use shutter_tests.Continuous.Status.{tx_count}
use shutter_tests.Continuous.System.{System, initial, launch, next_account}
use shutter_tests.Continuous.Send.{Sender, pick_account, inner_transaction, send_shutterized_tx}
use shutter_tests.Continuous.Samples.{plain, answering, tester, two_accounts, sent_state, state_of}
use shutter_tests.Continuous.Running.{Run, begins, sends}
use shutter_tests.Continuous.Running.Nonces.{Run-nonces}

abbrev send_again : ℤ → Sender × System → Sender × System
send_again block (cfg, s) =
    state_of (cfg, s) (send_shutterized_tx plain answering block (pos 0) cfg s)

abbrev second_state : Sender × System
second_state = send_again (pos 6) sent_state

abbrev third_state : Sender × System
third_state = send_again (pos 7) second_state

three_sent : Run plain two_accounts third_state.0 third_state.1
unfolding send_shutterized_tx pick_account get_eon_key gas_calculation_from_client sign use_nonce
    opts inner_transaction next_account initial tx_count launch
three_sent =
    sends answering (pos 7) (pos 0)
      (sends answering (pos 6) (pos 0) (sends answering (pos 5) (pos 0) begins refl) refl) refl

Run-nonces_example :
    ((third_state.1.store 2).sender ≡ 0)
    × ((third_state.1.store 2).inner_tx.nonce ≡ uint64_of_big (pos 4 +ℤ pos 1))
unfolding send_shutterized_tx pick_account get_eon_key gas_calculation_from_client sign use_nonce
    opts inner_transaction next_account initial tx_count launch
Run-nonces_example = Run-nonces 2 tester three_sent (omega arith) refl
