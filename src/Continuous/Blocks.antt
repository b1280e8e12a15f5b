-- ===== src/Continuous/Blocks.antt =====
-- continuous/continuous.go: QueryAllShutterBlocks and its two queries. A timestamp is `none` where its
-- `IsZero` holds. The polling never ends in the source; here it is run on the list of what the
-- database answers, one answer for each round. An answer is a value or an error; the cases of a panic
-- only make the functions total.
pub mod Order
use shutter_tests.Prelude.{
  ℕ, String, Bool, true, false, not, ◌&&◌, List, [], ◌∷◌, Option, none, some, lookup, insert,
  string_eq, int_eq, ◌==◌, if◌then◌else◌,
}
use shutter_tests.Prelude.Int.{ℤ, pos, ◌+ℤ◌, leb_ℤ}
use shutter_tests.Prelude.Words.{int64_of_uint64, uint64_of_int64}
use shutter_tests.Prelude.Outcomes.{Outcome, ok, err, panic, explicit, fatal, ◌>>=◌}

pub record ShutterBlock : Type 0 where
  pub number : ℤ
  pub ts : Option ℤ
  pub targeted_slot : ℤ

unfoldable pub no_block : ShutterBlock
no_block = record { number = pos 0; ts = none; targeted_slot = pos 0 }

-- What the rows of a query come as, with the error behind them.
abbrev pub Rows : Type 0 → Type 0
Rows Row = Outcome (List Row × Option String)

-- `if err != nil { panic(err) }`.
unfoldable pub or_panic {ℓ} : {A : Type ℓ} → Outcome A → Outcome A
or_panic (ok a) = ok a
or_panic (err e) = panic (explicit e)
or_panic (panic p) = panic p

-- The loop of queryNewestShutterBlock, with the variables that the rows are scanned into.
unfoldable pub newest : ℤ → Option ℤ → List (ℤ × Option ℤ) → Outcome ShutterBlock
newest block ts [] = ok (record { number = block; ts = ts; targeted_slot = pos 0 })
newest block ts ((b, t) ∷ rows) =
    let rest = newest b t rows in
    if not (block == pos 0) then panic (fatal "Finding multiple blocks") else rest

unfoldable pub query_newest_shutter_block : Rows (ℤ × Option ℤ) → Outcome ShutterBlock
unfolding newest or_panic
query_newest_shutter_block answer = do (rows, error) ← or_panic answer; newest (pos 0) none rows

pub record GraffitiRow : Type 0 where
  pub next_slot : ℤ
  pub validator_index : ℤ
  pub graffiti : String
  pub block_number : ℤ
  pub ts : Option ℤ

abbrev pub GraffitiSet : Type 0
GraffitiSet = List (String × Bool)

-- `cfg.GraffitiSet[graffiti]`, false for a missing key.
unfoldable pub is_set : Option Bool → Bool
is_set none = false
is_set (some b) = b

-- `nextShutterSlot + 1`, which wraps.
unfoldable pub slot_after : ℤ → ℤ
slot_after slot = int64_of_uint64 (uint64_of_int64 (slot +ℤ pos 1))

unfoldable pub query_graffiti_next_shutter_block :
    GraffitiSet → ℤ → Outcome GraffitiRow → ShutterBlock
unfolding is_set slot_after no_block
query_graffiti_next_shutter_block graffitis next_shutter_slot (ok r) =
    if leb_ℤ r.next_slot (slot_after next_shutter_slot)
    then no_block
    else if not (r.graffiti == "") && is_set (lookup r.graffiti graffitis)
    then record { number = r.block_number; ts = r.ts; targeted_slot = r.next_slot }
    else no_block
query_graffiti_next_shutter_block graffitis next_shutter_slot (err e) = no_block
query_graffiti_next_shutter_block graffitis next_shutter_slot (panic p) = no_block

-- The first query: `lastShutterTS`, from the newest row that has a time.
unfoldable pub first_ts : Option ℤ → List (Option ℤ) → Option ℤ
first_ts last [] = last
first_ts last (none ∷ rows) = first_ts last rows
first_ts last (some t ∷ rows) = first_ts (some t) rows

-- The rounds in mode "standard": an answer depends on the time that is asked for.
unfoldable pub poll_standard :
    List (Option ℤ → Rows (ℤ × Option ℤ)) → Option ℤ → Outcome (List ShutterBlock)
poll_standard [] last = ok []
poll_standard (ask ∷ asks) last = do
  block ← query_newest_shutter_block (ask last)
  elim block.ts [
    | none ↦ poll_standard asks last
    | some t ↦ do blocks ← poll_standard asks (some t); ok (block ∷ blocks)
  ]

-- The rounds in mode "graffiti".
unfoldable pub poll_graffiti : GraffitiSet → List (Outcome GraffitiRow) → ℤ → List ShutterBlock
poll_graffiti graffitis [] next_shutter_slot = []
poll_graffiti graffitis (answer ∷ answers) next_shutter_slot =
    let block = query_graffiti_next_shutter_block graffitis next_shutter_slot answer in
    elim block.ts [
      | none ↦ poll_graffiti graffitis answers next_shutter_slot
      | some t ↦ block ∷ poll_graffiti graffitis answers block.targeted_slot
    ]

-- QueryAllShutterBlocks in mode "standard": the blocks that are sent to the channel.
unfoldable pub query_all_standard :
    Rows (Option ℤ) → List (Option ℤ → Rows (ℤ × Option ℤ)) → Outcome (List ShutterBlock)
unfolding first_ts or_panic
query_all_standard answer asks = do
  (rows, error) ← or_panic answer
  poll_standard asks (first_ts none rows)

unfoldable pub query_all_graffiti :
    Rows (Option ℤ) → GraffitiSet → List (Outcome GraffitiRow) → Outcome (List ShutterBlock)
unfolding or_panic
query_all_graffiti answer graffitis answers = do
  (rows, error) ← or_panic answer
  ok (poll_graffiti graffitis answers (pos 0))
