-- ===== src/Utils/Eon.antt =====
-- utils/utils.go: the identity of a transaction and the key of the eon that it falls into.
use shutter_tests.Prelude.{ℕ, List, ◌++◌}
use shutter_tests.Prelude.Words.{uint64_add}
use shutter_tests.Prelude.Outcomes.{Outcome, ok, or_error, ◌>>=◌}
use shutter_tests.Chain.{Crypto}

unfoldable pub compute_identity : Crypto → List ℕ → ℕ → ℕ
compute_identity c prefix sender = c.compute_epoch_id (prefix ++ c.address_bytes sender)

-- What the client and the two contracts answer, and `EonPublicKey.Unmarshal`.
pub record EonCalls : Type 0 where
  pub block_number : Outcome ℕ
  pub keyper_set_index_by_block : ℕ → Outcome ℕ
  pub eon_key_bytes : ℕ → Outcome (List ℕ)
  pub unmarshal : List ℕ → Outcome ℕ

-- The eon and its public key. The error texts keep the part that the source writes.
unfoldable pub get_eon_key : EonCalls → ℕ → Outcome (ℕ × ℕ)
unfolding uint64_add
get_eon_key calls look_ahead = do
  block_number ← or_error calls.block_number "could not query blockNumber"
  eon ←
      or_error (calls.keyper_set_index_by_block (uint64_add block_number look_ahead))
        "could not get eon"
  eon_key_bytes ← or_error (calls.eon_key_bytes eon) "could not get eonKeyBytes"
  eon_key ← or_error (calls.unmarshal eon_key_bytes) "could not unmarshal eonKeyBytes"
  ok (eon, eon_key)
