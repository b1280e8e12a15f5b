-- ===== src/Collector/Printing/Caught.antt =====
-- continuous/collector.go: what is printed of a blame for a block that the database does not know.
use shutter_tests.Prelude.{
  ◌≡◌, ◌∙◌, ◌⊎◌, inl, inr, String, List, [], ◌∷◌, ◌++◌, Option, none, some, arith,
}
use shutter_tests.Prelude.Int.{ℤ, pos}
use shutter_tests.Prelude.Text.{codes}
use shutter_tests.Prelude.Outcomes.{Outcome, ok, err, panic, >>=-eq-ok}
use shutter_tests.Utils.Prefix.{prefix_from_block_number}
use shutter_tests.Collector.Events.{Submission}
use shutter_tests.Collector.Credentials.{Contracts}
use shutter_tests.Collector.Blame.{
  Observer, Answer, ValidatorBlame, KeyRow, set_key, key_row, key_rows, query_who_to_blame,
  blame_rows, query_decryption_keys_by_slot, check_slot_mismatch, blank_blame, after_keys,
  after_who, blame_validator,
}
use shutter_tests.Collector.Printing.{Display, validator_blame_string, print_blame}

key_rows-target_block_ts :
    (contracts : Contracts) (rows : List KeyRow) (ts ts' : ℤ) (b b' : ValidatorBlame)
    → key_rows contracts rows ts b ≡ ok (b', ts')
    → b'.target_block_ts ≡ b.target_block_ts
unfolding key_rows key_row set_key
key_rows-target_block_ts contracts [] ts ts' b b' h = ground (arith, h)
key_rows-target_block_ts contracts (r ∷ rows) ts ts' b b' h =
    let (c, e, k) = >>=-eq-ok (key_row contracts r b) (key_rows contracts rows r.created_ts) h in
    ground (arith, e, key_rows-target_block_ts contracts rows r.created_ts ts' c b' k)

query_keys-target_block_ts :
    (contracts : Contracts) (answer : Answer KeyRow) (b b' : ValidatorBlame) (ts : ℤ)
    (e : Option String)
    → query_decryption_keys_by_slot contracts answer b ≡ ok (b', ts, e)
    → b'.target_block_ts ≡ b.target_block_ts
unfolding query_decryption_keys_by_slot
query_keys-target_block_ts contracts (ok (rows, error)) b b' ts e h =
    let ((c, ts'), k, l) = >>=-eq-ok (key_rows contracts rows (pos 0) b) _ h in
    ground (arith, l, key_rows-target_block_ts contracts rows (pos 0) ts' b c k)
query_keys-target_block_ts contracts (err _) b b' ts e h = ground (arith, h)
query_keys-target_block_ts contracts (panic p) b b' ts e h = ground (arith, h)

after_keys-target_block_ts :
    (observer : Observer) (b b' : ValidatorBlame) (ts ts' : ℤ) (e error : Option String)
    → after_keys observer b ts e ≡ ok (b', ts', error)
    → b'.target_block_ts ≡ b.target_block_ts
unfolding after_keys
after_keys-target_block_ts observer b b' ts ts' (some e) error h = ground (arith, h)
after_keys-target_block_ts observer b b' ts ts' none error h =
    let (m, _, n) =
      >>=-eq-ok
        (check_slot_mismatch (observer.keys_by_preimage (prefix_from_block_number b.trigger_block)))
        _ h in
    ground (arith, n)

after_who-target_block_ts :
    (contracts : Contracts) (observer : Observer) (b b' : ValidatorBlame) (ts : ℤ)
    (e error : Option String)
    → after_who contracts observer b e ≡ ok (b', ts, error)
    → b'.target_block_ts ≡ b.target_block_ts
unfolding after_who
after_who-target_block_ts contracts observer b b' ts (some e) error h = ground (arith, h)
after_who-target_block_ts contracts observer b b' ts none error h =
    let ((c, ts', e), k, l) =
      >>=-eq-ok (query_decryption_keys_by_slot contracts (observer.keys_by_slot b.target_slot) b) _
        h in
    ground (
      arith,
      query_keys-target_block_ts contracts (observer.keys_by_slot b.target_slot) b c ts' e k,
      after_keys-target_block_ts observer c b' ts' ts e error l,
    )

-- The database has no row for the block, or the query fails.
abbrev pub IsUnknown {ℓ} : {Row : Type ℓ} → Outcome (List Row × Option String) → Type ℓ
IsUnknown answer =
    ((error : Option String) × (answer ≡ ok ([], error))) ⊎ ((e : String) × (answer ≡ err e))

unknown-target_block_ts :
    (contracts : Contracts) (observer : Observer) (s : Submission) (b c : ValidatorBlame)
    (e : Option String)
    → IsUnknown (observer.who_to_blame s.sequenced)
    → query_who_to_blame contracts
        (observer.who_to_blame s.sequenced)
        (blank_blame contracts.submit_address s)
      ≡ ok (c, e)
    → c.target_block_ts ≡ none
unfolding query_who_to_blame blame_rows blank_blame
unknown-target_block_ts contracts observer s b c e (inl (error, a)) h = ground (arith, a, h)
unknown-target_block_ts contracts observer s b c e (inr (x, a)) h = ground (arith, a, h)

print_blame-none :
    (d : Display) (b : ValidatorBlame) (ts : ℤ)
    → b.target_block_ts ≡ none
    → print_blame d (b, ts)
      ≡ codes
          "%!v(PANIC=String method: runtime error: invalid memory address or nil pointer dereference)"
        ++ 10 ∷ []
unfolding print_blame validator_blame_string
print_blame-none d b ts h = ground (arith, h)

-- If the database has no row for the block of a failed submission, or the query fails, and blaming it
-- returns at all, what the blame file gets is the message of a panic: the text is the same for every
-- such submission, with neither its trigger nor its prefix.
pub blame_validator-print_blame :
    (contracts : Contracts) (observer : Observer) (d : Display) (s : Submission)
    (b : ValidatorBlame) (ts : ℤ) (error : Option String)
    → IsUnknown (observer.who_to_blame s.sequenced)
    → blame_validator contracts observer s ≡ ok (b, ts, error)
    → print_blame d (b, ts)
      ≡ codes
          "%!v(PANIC=String method: runtime error: invalid memory address or nil pointer dereference)"
        ++ 10 ∷ []
unfolding blame_validator
blame_validator-print_blame contracts observer d s b ts error unknown h =
    let ((c, e), k, l) =
      >>=-eq-ok
        (query_who_to_blame contracts (observer.who_to_blame s.sequenced)
          (blank_blame contracts.submit_address s))
        _ h in
    print_blame-none d b ts (
      after_who-target_block_ts contracts observer c b ts e error l
      ∙ unknown-target_block_ts contracts observer s b c e unknown k)
