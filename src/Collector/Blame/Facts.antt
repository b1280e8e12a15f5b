-- ===== src/Collector/Blame/Facts.antt =====
-- continuous/collector.go: what a blame says of its submission, whatever the database answers.
use shutter_tests.Prelude.{◌≡◌, String, List, [], ◌∷◌, Option, none, some, arith}
use shutter_tests.Prelude.Int.{ℤ, pos}
use shutter_tests.Prelude.Outcomes.{ok, err, panic, >>=-eq-ok}
use shutter_tests.Utils.Prefix.{prefix_from_block_number}
use shutter_tests.Collector.Events.{Submission}
use shutter_tests.Collector.Credentials.{Contracts, withdraw_address_for_public_key}
use shutter_tests.Collector.Blame.{
  Observer, Answer, ValidatorBlame, BlameRow, KeyRow, set_key, key_row, key_rows, deref_credentials,
  blame_row, blame_rows, query_who_to_blame, query_decryption_keys_by_slot, check_slot_mismatch,
  blank_blame, after_keys, after_who, blame_validator,
}

-- The parts of a blame that are the submission's.
pub record Same (a b : ValidatorBlame) : Type 0 where
  pub prefix : b.prefix ≡ a.prefix
  pub trigger_block : b.trigger_block ≡ a.trigger_block
  pub submit_block : b.submit_block ≡ a.submit_block
  pub sender : b.sender ≡ a.sender

blame_row-Same :
    (contracts : Contracts) (r : BlameRow) (b b' : ValidatorBlame)
    → blame_row contracts r b ≡ ok b'
    → Same b b'
unfolding blame_row
blame_row-Same contracts r b b' h =
    let (credentials, _, e) =
      >>=-eq-ok (deref_credentials (withdraw_address_for_public_key contracts r.public_key)) _ h in
    ground (arith, e)

blame_rows-Same :
    (contracts : Contracts) (rows : List BlameRow) (b b' : ValidatorBlame)
    → blame_rows contracts rows b ≡ ok b'
    → Same b b'
unfolding blame_rows
blame_rows-Same contracts [] b b' h = ground (arith, h)
blame_rows-Same contracts (r ∷ rows) b b' h =
    let (c, e, k) = >>=-eq-ok (blame_row contracts r b) (blame_rows contracts rows) h in
    ground (arith, blame_row-Same contracts r b c e, blame_rows-Same contracts rows c b' k)

query_who_to_blame-Same :
    (contracts : Contracts) (answer : Answer BlameRow) (b b' : ValidatorBlame) (e : Option String)
    → query_who_to_blame contracts answer b ≡ ok (b', e)
    → Same b b'
unfolding query_who_to_blame
query_who_to_blame-Same contracts (ok (rows, error)) b b' e h =
    let (c, k, l) = >>=-eq-ok (blame_rows contracts rows b) _ h in
    ground (arith, l, blame_rows-Same contracts rows b c k)
query_who_to_blame-Same contracts (err _) b b' e h = ground (arith, h)
query_who_to_blame-Same contracts (panic p) b b' e h = ground (arith, h)

key_rows-Same :
    (contracts : Contracts) (rows : List KeyRow) (ts ts' : ℤ) (b b' : ValidatorBlame)
    → key_rows contracts rows ts b ≡ ok (b', ts')
    → Same b b'
unfolding key_rows key_row set_key
key_rows-Same contracts [] ts ts' b b' h = ground (arith, h)
key_rows-Same contracts (r ∷ rows) ts ts' b b' h =
    let (c, e, k) = >>=-eq-ok (key_row contracts r b) (key_rows contracts rows r.created_ts) h in
    ground (arith, e, key_rows-Same contracts rows r.created_ts ts' c b' k)

query_decryption_keys_by_slot-Same :
    (contracts : Contracts) (answer : Answer KeyRow) (b b' : ValidatorBlame) (ts : ℤ)
    (e : Option String)
    → query_decryption_keys_by_slot contracts answer b ≡ ok (b', ts, e)
    → Same b b'
unfolding query_decryption_keys_by_slot
query_decryption_keys_by_slot-Same contracts (ok (rows, error)) b b' ts e h =
    let ((c, ts'), k, l) = >>=-eq-ok (key_rows contracts rows (pos 0) b) _ h in
    ground (arith, l, key_rows-Same contracts rows (pos 0) ts' b c k)
query_decryption_keys_by_slot-Same contracts (err _) b b' ts e h = ground (arith, h)
query_decryption_keys_by_slot-Same contracts (panic p) b b' ts e h = ground (arith, h)

after_keys-Same :
    (observer : Observer) (b b' : ValidatorBlame) (ts ts' : ℤ) (e error : Option String)
    → after_keys observer b ts e ≡ ok (b', ts', error)
    → Same b b'
unfolding after_keys
after_keys-Same observer b b' ts ts' (some e) error h = ground (arith, h)
after_keys-Same observer b b' ts ts' none error h =
    let (m, _, n) =
      >>=-eq-ok
        (check_slot_mismatch (observer.keys_by_preimage (prefix_from_block_number b.trigger_block)))
        _ h in
    ground (arith, n)

after_who-Same :
    (contracts : Contracts) (observer : Observer) (b b' : ValidatorBlame) (ts : ℤ)
    (e error : Option String)
    → after_who contracts observer b e ≡ ok (b', ts, error)
    → Same b b'
unfolding after_who
after_who-Same contracts observer b b' ts (some e) error h = ground (arith, h)
after_who-Same contracts observer b b' ts none error h =
    let ((c, ts', e), k, l) =
      >>=-eq-ok (query_decryption_keys_by_slot contracts (observer.keys_by_slot b.target_slot) b) _
        h in
    ground (
      arith,
      query_decryption_keys_by_slot-Same contracts (observer.keys_by_slot b.target_slot) b c ts' e
          k,
      after_keys-Same observer c b' ts' ts e error l,
    )

-- What a blame takes from its submission and the configuration.
pub record IsOf (contracts : Contracts) (s : Submission) (b : ValidatorBlame) : Type 0 where
  pub prefix : b.prefix ≡ prefix_from_block_number s.trigger
  pub trigger_block : b.trigger_block ≡ s.trigger
  pub submit_block : b.submit_block ≡ s.sequenced
  pub sender : b.sender ≡ contracts.submit_address

Same-IsOf :
    (contracts : Contracts) (s : Submission) (b : ValidatorBlame)
    → Same (blank_blame contracts.submit_address s) b
    → IsOf contracts s b
unfolding blank_blame
Same-IsOf contracts s b h = record {
  prefix = h.prefix;
  trigger_block = h.trigger_block;
  submit_block = h.submit_block;
  sender = h.sender;
}

-- A blame that is returned, with an error or without, has the trigger block of its submission and the
-- prefix that is made from it, the block in which the submission was sequenced, and the submitting
-- account as the sender, whatever the database answers.
pub blame_validator-IsOf :
    (contracts : Contracts) (observer : Observer) (s : Submission) (b : ValidatorBlame) (ts : ℤ)
    (error : Option String)
    → blame_validator contracts observer s ≡ ok (b, ts, error)
    → IsOf contracts s b
unfolding blame_validator
blame_validator-IsOf contracts observer s b ts error h =
    let blank = blank_blame contracts.submit_address s in
    let ((c, e), k, l) =
      >>=-eq-ok (query_who_to_blame contracts (observer.who_to_blame s.sequenced) blank) _ h in
    Same-IsOf contracts s b (
      ground (
        arith,
        query_who_to_blame-Same contracts (observer.who_to_blame s.sequenced) blank c e k,
        after_who-Same contracts observer c b ts e error l,
      ))
