-- ===== src/Continuous/Send/Effects.antt =====
-- continuous/tx.go: what a transaction that was sent carries, and what sending it leaves behind.
use shutter_tests.Prelude.{
  suc, ◌≡◌, ◌∙◌, ap, [], ◌∷◌, ◌++◌, some, get_elem?, set, length, arith, nat_beq_iff,
}
use shutter_tests.Prelude.Int.{ℤ, pos, ◌+ℤ◌, ◌<ℤ◌}
use shutter_tests.Prelude.Words.{uint64_of_big, IsInt64}
use shutter_tests.Prelude.Outcomes.{ok}
use shutter_tests.Chain.{Crypto}
use shutter_tests.Utils.Account.{Account, sign, use_nonce, opts}
use shutter_tests.Utils.Prefix.{prefix_from_block_number, block_number_from_prefix}
use shutter_tests.Utils.Prefix.RoundTrip.{from_prefix-prefix_from, positive_or_zero}
use shutter_tests.Continuous.System.{System, next_account, launch}
use shutter_tests.Continuous.Send.{
  Sender, SendCalls, send_shutterized_tx, pick_account, inner_transaction,
}

positive : (n : ℤ) → pos 0 <ℤ n → positive_or_zero n ≡ n
positive n h = ground arith

-- The transaction that a successful call adds, and the state that it leaves.
pub record IsSent (account : Account) (block_number target_slot : ℤ) (cfg : Sender) (s : System)
    (cfg' : Sender) (s' : System) : Type 0 where
  pub nonce_bumped :
      cfg'.accounts
      ≡ set cfg.accounts
          (next_account (length cfg.accounts) s.status)
          (record account { nonce = account.nonce +ℤ pos 1 })
  pub submit_bumped :
      cfg'.submit_account
      ≡ record (cfg.submit_account) { nonce = cfg.submit_account.nonce +ℤ pos 1 }
  pub inner_nonce : (s'.store s.sent).inner_tx.nonce ≡ uint64_of_big account.nonce
  pub inner_value : (s'.store s.sent).inner_tx.value ≡ block_number
  pub inner_to : (s'.store s.sent).inner_tx.to ≡ some cfg.submit_account.address
  pub trigger : (s'.store s.sent).trigger_block ≡ block_number
  pub prefix : (s'.store s.sent).prefix ≡ prefix_from_block_number block_number
  pub slot : (s'.store s.sent).target_slot ≡ target_slot
  pub one_more : s'.sent ≡ suc s.sent
  pub in_flight : s'.status.tx_in_flight ≡ s.status.tx_in_flight ++ s.sent ∷ []
  pub done : s'.status.tx_done ≡ s.status.tx_done

module _ (c : Crypto) (calls : SendCalls) (block_number target_slot : ℤ) (cfg cfg' : Sender)
    (s s' : System) (account : Account) where
  -- A call that succeeds uses up one nonce of the account whose turn it is and one of the submitting
  -- account, changes no other account, and adds one transaction in flight, addressed to the
  -- submitting account, that carries the block number as its value, its trigger and its prefix.
  pub send-IsSent :
      get_elem? cfg.accounts (next_account (length cfg.accounts) s.status) ≡ some account
      → send_shutterized_tx c calls block_number target_slot cfg s ≡ ok (cfg', s')
      → IsSent account block_number target_slot cfg s cfg' s'
  unfolding send_shutterized_tx launch pick_account use_nonce opts sign inner_transaction
  send-IsSent a h = ground (arith, nat_beq_iff s.sent s.sent)

  -- Both numbers by which the collector later pairs a submission with its inclusion, the one in the
  -- prefix and the one in the value, are the block number of the call, if that is positive.
  pub send-trigger_recovered :
      pos 0 <ℤ block_number
      → IsInt64 block_number
      → get_elem? cfg.accounts (next_account (length cfg.accounts) s.status) ≡ some account
      → send_shutterized_tx c calls block_number target_slot cfg s ≡ ok (cfg', s')
      → (block_number_from_prefix (s'.store s.sent).prefix ≡ block_number)
        × ((s'.store s.sent).inner_tx.value ≡ block_number)
  send-trigger_recovered lo r a h =
      let sent = send-IsSent a h in
      (
        ap block_number_from_prefix sent.prefix
            ∙ from_prefix-prefix_from block_number r
            ∙ positive block_number lo,
        sent.inner_value,
      )
