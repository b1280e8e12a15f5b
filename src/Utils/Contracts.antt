-- ===== src/Utils/Contracts.antt =====
-- utils/utils.go: SetupContracts. A contract that is bound stands for the address that it is bound to.
use shutter_tests.Prelude.{ℕ, String}
use shutter_tests.Prelude.Int.{ℤ}
use shutter_tests.Prelude.Outcomes.{Outcome, ok, or_error, ◌>>=◌}
use shutter_tests.Utils.Repair.{get_deposit_contract_address_by_chain_id}

-- `common.HexToAddress`, and the constructors of the generated bindings, with their errors.
pub record Bindings : Type 0 where
  pub hex_to_address : String → ℕ
  pub new_keyper_set_manager : ℕ → Outcome ℕ
  pub new_key_broadcast_contract : ℕ → Outcome ℕ
  pub new_sequencer : ℕ → Outcome ℕ
  pub new_deposit_contract : ℕ → Outcome ℕ

-- The field depositContractAddress is never set: it stays the zero address.
pub record Contracts : Type 0 where
  pub keyper_set_manager : ℕ
  pub key_broadcast_contract : ℕ
  pub sequencer_contract_address : ℕ
  pub sequencer : ℕ
  pub deposit_contract : ℕ
  pub deposit_contract_address : ℕ

unfoldable pub setup_contracts : Bindings → String → String → String → ℤ → Outcome Contracts
setup_contracts b key_broadcast sequencer keyper_set_manager chain_id = do
  manager ←
      or_error (b.new_keyper_set_manager (b.hex_to_address keyper_set_manager))
        "can not get KeyperSetManager"
  broadcast ←
      or_error (b.new_key_broadcast_contract (b.hex_to_address key_broadcast))
        "can not get KeyBrodcastContract"
  sequencer_contract ←
      or_error (b.new_sequencer (b.hex_to_address sequencer)) "can not get SequencerContract"
  address ←
      or_error (get_deposit_contract_address_by_chain_id chain_id)
        "can not get deposit contract address"
  deposit ← or_error (b.new_deposit_contract address) "can not get DepositContract"
  ok (record {
    keyper_set_manager = manager;
    key_broadcast_contract = broadcast;
    sequencer_contract_address = b.hex_to_address sequencer;
    sequencer = sequencer_contract;
    deposit_contract = deposit;
    deposit_contract_address = 0;
  })
