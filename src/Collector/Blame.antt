-- ===== src/Collector/Blame.antt =====
-- continuous/collector.go: whom to blame for a submission that was not included. The rows of the
-- database come as what `Scan` leaves in the variables, with the error behind them. Bytes are numbers
-- below 256, and a public key is the bytes of its text.
pub mod Keys
pub mod Facts
pub mod Panics
use shutter_tests.Prelude.{
  ℕ, zero, suc, ◌+◌, ◌-◌, ◌*◌, String, Bool, true, false, ◌&&◌, List, [], ◌∷◌, Option, none, some,
  length, take, drop, replicate, leb, ltb, nat_eq, int_eq, ◌==◌, if◌then◌else◌,
}
use shutter_tests.Prelude.Int.{ℤ, pos}
use shutter_tests.Prelude.Outcomes.{
  Outcome, ok, err, panic, nil_dereference, index_out_of_range, ◌>>=◌,
}
use shutter_tests.Utils.Prefix.{prefix_from_block_number, block_number_from_prefix}
use shutter_tests.Collector.Events.{Submission}
use shutter_tests.Collector.Credentials.{Contracts, withdraw_address_for_public_key}

-- `&createdTs`, the address of the variable that one call scans every row into, or nil.
pub data Pointer : Type 0 where
  nil created_ts_variable : Pointer

pub record DecryptionKey : Type 0 where
  pub identity_preimage : List ℕ
  pub tx_pointer : ℤ
  pub eon : ℤ
  pub created_ts : Pointer

pub record ValidatorBlame : Type 0 where
  pub prefix : List ℕ
  pub trigger_block : ℤ
  pub submit_block : ℤ
  pub target_block : ℤ
  pub target_block_ts : Option ℤ
  pub target_slot : ℤ
  pub decrypted_tx_hash : List ℕ
  pub validator_index : ℤ
  pub decryption_key : DecryptionKey
  pub sender : ℕ
  pub proposer_public_key : List ℕ
  pub credentials : ℕ

pub record BlameRow : Type 0 where
  pub target_block : ℤ
  pub target_slot : ℤ
  pub validator_index : ℤ
  pub target_ts : Option ℤ
  pub public_key : List ℕ

-- `*credentials`: the error is printed, and then the nil pointer that came with it is read.
unfoldable pub deref_credentials : Outcome ℕ → Outcome ℕ
deref_credentials (ok a) = ok a
deref_credentials (err e) = panic nil_dereference
deref_credentials (panic p) = panic p

unfoldable pub blame_row : Contracts → BlameRow → ValidatorBlame → Outcome ValidatorBlame
blame_row contracts r blame = do
  credentials ← deref_credentials (withdraw_address_for_public_key contracts r.public_key)
  ok (record blame {
    target_block = r.target_block;
    target_slot = r.target_slot;
    target_block_ts = r.target_ts;
    validator_index = r.validator_index;
    proposer_public_key = r.public_key;
    credentials = credentials;
  })

unfoldable pub blame_rows : Contracts → List BlameRow → ValidatorBlame → Outcome ValidatorBlame
blame_rows contracts [] blame = ok blame
blame_rows contracts (r ∷ rows) blame = do
  blame' ← blame_row contracts r blame
  blame_rows contracts rows blame'

-- What a query answers: the rows and the error behind them, or the error of `Query`.
abbrev pub Answer : Type 0 → Type 0
Answer Row = Outcome (List Row × Option String)

-- queryWhoToBlame, with the blame as it is left also when an error is returned. The error behind the
-- rows is logged, and the nil error of `Query` is returned.
unfoldable pub query_who_to_blame :
    Contracts → Answer BlameRow → ValidatorBlame → Outcome (ValidatorBlame × Option String)
query_who_to_blame contracts (ok (rows, error)) blame = do
  blame' ← blame_rows contracts rows blame
  ok (blame', none)
query_who_to_blame contracts (err e) blame = ok (blame, some e)
query_who_to_blame contracts (panic p) blame = panic p

pub record KeyRow : Type 0 where
  pub identity_preimage : List ℕ
  pub tx_pointer : ℤ
  pub eon : ℤ
  pub created_ts : ℤ
  pub tx_hash : List ℕ

-- The test on the two parts of the identity preimage: the sender and the trigger block.
unfoldable pub is_ours : Contracts → ℤ → KeyRow → Bool
is_ours contracts trigger_block r =
    (contracts.bytes_to_address (drop 32 r.identity_preimage) == contracts.submit_address)
    && (block_number_from_prefix (take 32 r.identity_preimage) == trigger_block)

unfoldable pub set_key : KeyRow → ValidatorBlame → ValidatorBlame
set_key r blame = record blame {
  decryption_key = record {
    identity_preimage = r.identity_preimage;
    tx_pointer = r.tx_pointer;
    eon = r.eon;
    created_ts = created_ts_variable;
  };
  decrypted_tx_hash =
      if ltb (length r.tx_hash) 32 then blame.decrypted_tx_hash else take 32 r.tx_hash;
}

-- One round of the loop. `identityPreimage[0:32]` or `[32:]` is out of range for a shorter preimage.
unfoldable pub key_row : Contracts → KeyRow → ValidatorBlame → Outcome ValidatorBlame
key_row contracts r blame =
    if ltb (length r.identity_preimage) 32
    then panic index_out_of_range
    else if is_ours contracts blame.trigger_block r
    then ok (set_key r blame)
    else ok blame

-- The loop, with the value of the variable `createdTs`, which the result's key points to.
unfoldable pub key_rows :
    Contracts → List KeyRow → ℤ → ValidatorBlame → Outcome (ValidatorBlame × ℤ)
key_rows contracts [] created_ts blame = ok (blame, created_ts)
key_rows contracts (r ∷ rows) created_ts blame = do
  blame' ← key_row contracts r blame
  key_rows contracts rows r.created_ts blame'

unfoldable pub query_decryption_keys_by_slot :
    Contracts → Answer KeyRow → ValidatorBlame → Outcome (ValidatorBlame × ℤ × Option String)
query_decryption_keys_by_slot contracts (ok (rows, error)) blame = do
  (blame', created_ts) ← key_rows contracts rows (pos 0) blame
  ok (blame', created_ts, none)
query_decryption_keys_by_slot contracts (err e) blame = ok (blame, pos 0, some e)
query_decryption_keys_by_slot contracts (panic p) blame = panic p

-- checkSlotMismatch: it logs the slots, and fails only with the query.
unfoldable pub check_slot_mismatch : Answer ℤ → Outcome (Option String)
check_slot_mismatch (ok _) = ok none
check_slot_mismatch (err e) = ok (some e)
check_slot_mismatch (panic p) = panic p

-- What the queries answer, each for the value it is asked with: the block of the submission, the
-- target slot, and the identity preimage.
pub record Observer : Type 0 where
  pub who_to_blame : ℤ → Answer BlameRow
  pub keys_by_slot : ℤ → Answer KeyRow
  pub keys_by_preimage : List ℕ → Answer ℤ

-- The zero value of the struct, with the fields that are given.
unfoldable pub blank_blame : ℕ → Submission → ValidatorBlame
blank_blame sender s = record {
  prefix = prefix_from_block_number s.trigger;
  trigger_block = s.trigger;
  submit_block = s.sequenced;
  target_block = pos 0;
  target_block_ts = none;
  target_slot = pos 0;
  decrypted_tx_hash = replicate 32 0;
  validator_index = pos 0;
  decryption_key = record {
    identity_preimage = [];
    tx_pointer = pos 0;
    eon = pos 0;
    created_ts = nil;
  };
  sender = sender;
  proposer_public_key = [];
  credentials = 0;
}

-- blameValidator behind the error of its second call.
unfoldable pub after_keys :
    Observer → ValidatorBlame → ℤ → Option String → Outcome (ValidatorBlame × ℤ × Option String)
after_keys observer blame created_ts (some e) = ok (blame, created_ts, some e)
after_keys observer blame created_ts none = do
  mismatch ←
      check_slot_mismatch (observer.keys_by_preimage (prefix_from_block_number blame.trigger_block))
  ok (blame, created_ts, mismatch)

-- blameValidator behind the error of its first call.
unfoldable pub after_who :
    Contracts
    → Observer
    → ValidatorBlame
    → Option String
    → Outcome (ValidatorBlame × ℤ × Option String)
unfolding after_keys
after_who contracts observer blame (some e) = ok (blame, pos 0, some e)
after_who contracts observer blame none = do
  (blame', created_ts, error) ←
      query_decryption_keys_by_slot contracts (observer.keys_by_slot blame.target_slot) blame
  after_keys observer blame' created_ts error

-- A blame, with the variable that its key may point to, and the error.
unfoldable pub blame_validator :
    Contracts → Observer → Submission → Outcome (ValidatorBlame × ℤ × Option String)
unfolding after_who
blame_validator contracts observer s = do
  (blame, error) ←
      query_who_to_blame contracts (observer.who_to_blame s.sequenced)
        (blank_blame contracts.submit_address s)
  after_who contracts observer blame error

-- `d.createdTs.Time`, as String of a blame reads it.
unfoldable pub key_time : Pointer → ℤ → Outcome ℤ
key_time nil created_ts = panic nil_dereference
key_time created_ts_variable created_ts = ok created_ts
