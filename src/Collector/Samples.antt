-- ===== src/Collector/Samples.antt =====
-- continuous/collector.go: a small range of blocks, with what the node and the database answer.
use shutter_tests.Prelude.{
  ℕ, ◌+◌, List, [], ◌∷◌, ◌++◌, replicate, length, nat_eq, ◌==◌, if◌then◌else◌, Option, none, some,
  String, true,
}
use shutter_tests.Prelude.Int.{ℤ, pos}
use shutter_tests.Prelude.Outcomes.{Outcome, ok, err, panic}
use shutter_tests.Chain.{Transaction}
use shutter_tests.Utils.Prefix.{prefix_from_block_number}
use shutter_tests.Continuous.Tx.{new_shutter_tx}
use shutter_tests.Continuous.Status.{Store, Status}
use shutter_tests.Continuous.System.{blank}
use shutter_tests.Collector.Cache.{Success, Block, Source}
use shutter_tests.Collector.Events.{Submission, SequencerEvent}
use shutter_tests.Collector.Ratios.{Row, Counters}
use shutter_tests.Collector.Credentials.{Contracts}
use shutter_tests.Collector.Blame.{
  Observer, ValidatorBlame, BlameRow, KeyRow, blank_blame, blame_validator,
}
use shutter_tests.Collector.Stats.{Statistics, World, Report, collect_continuous_test_stats}

-- One submitted transaction in every block, but the node has none from block 10 on.
abbrev pub transaction_at : ℕ → Transaction
transaction_at block = record blank { to = some 102; value = pos block }

abbrev pub answer_at : ℤ → Outcome Block
answer_at (pos n) = ok (record { number = n; transactions = transaction_at n ∷ blank ∷ [] })
answer_at _ = err "not found"

abbrev pub node : Source
node = record {
  block_by_number = answer_at;
  validator_info = λ block. ok (some (some (pos 3), "shutter"));
  hash = λ tx. tx.nonce;
  submit_address = 102;
}

abbrev pub silent : Source
silent = record node { block_by_number = λ block. err "unreachable" }

abbrev pub success_at : ℕ → Success
success_at n = record {
  trigger = pos n;
  included = pos (n + 2);
  validator_index = pos 3;
  graffiti = "shutter";
  decrypted_tx_hash = n;
}

abbrev pub submission_at : ℕ → Submission
submission_at n = record { trigger = pos n; sequenced = pos (n + 1) }

abbrev pub found : List Success
found = success_at 5 ∷ success_at 7 ∷ []

abbrev pub submitted : List Submission
submitted = submission_at 5 ∷ submission_at 6 ∷ []

abbrev pub event_at : ℕ → SequencerEvent
event_at n = record { identity_prefix = prefix_from_block_number (pos n); block_number = n + 1 }

abbrev pub row_of : String → Outcome Row
row_of status = ok (record {
  tx_hash = 1;
  tx_status = status;
  inclusion_slot = some (pos 20);
  sequenced_slot = some (pos 20);
})

abbrev pub rows : List (Outcome Row)
rows = row_of "shielded inclusion" ∷ row_of "pending" ∷ []

abbrev pub counted : Counters
counted = record {
  count = 2;
  shielded = 1;
  unshielded = 0;
  not_included = 0;
  pending = 1;
  in_targeted_slot = 1;
  invalid_for_target = 2;
}

abbrev pub targeting : Store
targeting p = new_shutter_tx (record blank { nonce = p }) blank 0 [] (pos 5) (pos 20)

abbrev pub two_known : Status
two_known = record {
  last_shutter_ts = pos 0;
  tx_in_flight = 1 ∷ [];
  tx_done = 0 ∷ [];
  next_shutter_slot = pos 0;
}

abbrev pub deposit : Contracts
deposit = record {
  withdrawal_credentials = λ key. ok key;
  bytes_to_address = λ bytes. length bytes;
  submit_address = 20;
}

abbrev pub blame_row_of : List ℕ → BlameRow
blame_row_of key = record {
  target_block = pos 8;
  target_slot = pos 80;
  validator_index = pos 3;
  target_ts = some (pos 1000);
  public_key = key;
}

abbrev pub key_of : ℤ → KeyRow
key_of ts = record {
  identity_preimage = 6 ∷ (replicate 31 0 ++ replicate 20 1);
  tx_pointer = pos 0;
  eon = pos 1;
  created_ts = ts;
  tx_hash = replicate 32 9;
}

abbrev pub watching : Observer
watching = record {
  who_to_blame = λ block. ok (blame_row_of (b'0' ∷ b'x' ∷ b'a' ∷ b'b' ∷ []) ∷ [], none);
  keys_by_slot = λ slot. ok (key_of (pos 1100) ∷ key_of (pos 1200) ∷ [], none);
  keys_by_preimage = λ preimage. ok (pos 80 ∷ [], none);
}

abbrev pub value_of : {A : Type 0} → A → Outcome A → A
value_of other (ok a) = a
value_of other (err e) = other
value_of other (panic p) = other

abbrev pub blamed_six : ValidatorBlame × ℤ × Option String
blamed_six =
    value_of (blank_blame 20 (submission_at 6), pos 0, none)
      (blame_validator deposit watching (submission_at 6))

abbrev pub numbers : Statistics ℕ
numbers = record {
  mean = λ ds. if length ds == 0 then err "Input must not be empty." else ok 2;
  maximum = λ ds. ok 2;
  minimum = λ ds. ok 2;
  median = λ ds. ok 2;
}

abbrev pub network : World
network = record {
  source = node;
  events = λ start_block end_block. ok (event_at 6 ∷ event_at 12 ∷ [], none);
  block_triggers = λ start_block end_block. ok (pos 6 ∷ pos 7 ∷ [], none);
  contracts = deposit;
  observer = watching;
  graffiti_mode = true;
  targets = [];
  status_rows = λ start_block end_block. ok (rows, none);
}

abbrev pub no_report : Report ℕ
no_report = record {
  found = 0;
  triggers = 0;
  ratios = none;
  shutterized = (0, 0);
  fails = 0;
  missed_count = pos 0;
  missed = [];
  delays = record { average = 0; maximum = 0; minimum = 0; median = 0 };
  successful = [];
  blames = [];
}

abbrev pub report : Report ℕ
report = value_of no_report (collect_continuous_test_stats numbers network 5 9 []).0

abbrev pub unreachable : World
unreachable = record network { source = silent }
