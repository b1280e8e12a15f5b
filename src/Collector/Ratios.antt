-- ===== src/Collector/Ratios.antt =====
-- continuous/collector.go: queryStatusRatios and buildInnerTxHashToTargetSlotMap. The query itself is
-- the database's; its rows come as what `Scan` leaves in the variables, or as its error. The counters
-- are the source's int64 and uint64, which do not come near their bounds. A percentage is a counter
-- over the count.
pub mod Counts
pub mod Slots
use shutter_tests.Prelude.{
  ℕ, suc, ◌+◌, String, Bool, true, false, not, ◌&&◌, List, [], ◌∷◌, ◌++◌, Option, none, some,
  lookup, insert, nat_eq, int_eq, string_eq, ◌==◌, if◌then◌else◌,
}
use shutter_tests.Prelude.Int.{ℤ, pos, leb_ℤ}
use shutter_tests.Prelude.Outcomes.{Outcome, ok, err, ◌>>=◌}
use shutter_tests.Chain.{Transaction}
use shutter_tests.Continuous.Status.{Store, Status}

abbrev pub SlotMap : Type 0
SlotMap = List (ℕ × ℤ)

-- The loop over the transactions in memory; every one has an inner transaction.
unfoldable pub add_target_slots : (Transaction → ℕ) → Store → List ℕ → SlotMap → SlotMap
add_target_slots hash store [] m = m
add_target_slots hash store (p ∷ ps) m =
    let tx = store p in
    add_target_slots hash store ps
      (if not (tx.target_slot == pos 0) then insert (hash tx.inner_tx) tx.target_slot m else m)

unfoldable pub inner_tx_hash_to_target_slot : (Transaction → ℕ) → Store → Status → SlotMap
unfolding add_target_slots
inner_tx_hash_to_target_slot hash store s =
    add_target_slots hash store (s.tx_in_flight ++ s.tx_done) []

pub record Row : Type 0 where
  pub tx_hash : ℕ
  pub tx_status : String
  pub inclusion_slot : Option ℤ
  pub sequenced_slot : Option ℤ

pub record Counters : Type 0 where
  pub count : ℕ
  pub shielded : ℕ
  pub unshielded : ℕ
  pub not_included : ℕ
  pub pending : ℕ
  pub in_targeted_slot : ℕ
  pub invalid_for_target : ℕ

unfoldable pub zero_counters : Counters
zero_counters = record {
  count = 0;
  shielded = 0;
  unshielded = 0;
  not_included = 0;
  pending = 0;
  in_targeted_slot = 0;
  invalid_for_target = 0;
}

-- The two tests on the targeted slot: the row has a slot, the transaction has a target, and the slots
-- compare.
unfoldable pub slot_test : (ℤ → ℤ → Bool) → Option ℤ → Option ℤ → Bool
slot_test compare none target = false
slot_test compare (some slot) none = false
slot_test compare (some slot) (some target) = not (target == pos 0) && compare slot target

unfoldable pub is_late : Bool → SlotMap → Row → Bool
unfolding slot_test
is_late graffiti_mode m r =
    graffiti_mode
    && slot_test (λ slot target. leb_ℤ target slot) r.sequenced_slot (lookup r.tx_hash m)

unfoldable pub is_on_target : Bool → SlotMap → Row → Bool
unfolding slot_test
is_on_target graffiti_mode m r =
    graffiti_mode && slot_test (λ slot target. slot == target) r.inclusion_slot (lookup r.tx_hash m)

abbrev pub count_if : Bool → ℕ → ℕ
count_if b n = if b then suc n else n

-- The switch on the status of a row.
unfoldable pub count_status : Bool → SlotMap → Row → Counters → Counters
count_status graffiti_mode m r c =
    if r.tx_status == "shielded inclusion"
    then record c {
      shielded = suc c.shielded;
      in_targeted_slot = count_if (is_on_target graffiti_mode m r) c.in_targeted_slot;
    }
    else if r.tx_status == "unshielded inclusion"
    then record c { unshielded = suc c.unshielded }
    else if r.tx_status == "not included"
    then record c { not_included = suc c.not_included }
    else if r.tx_status == "pending"
    then record c { pending = suc c.pending }
    else c

-- One round of the loop. A row that cannot be scanned is skipped.
unfoldable pub count_row : Bool → SlotMap → Outcome Row → Counters → Counters
count_row graffiti_mode m (ok r) c = count_status graffiti_mode m r (record c {
  count = suc c.count;
  invalid_for_target = count_if (is_late graffiti_mode m r) c.invalid_for_target;
})
count_row graffiti_mode m _ c = c

unfoldable pub count_rows : Bool → SlotMap → List (Outcome Row) → Counters → Counters
count_rows graffiti_mode m [] c = c
count_rows graffiti_mode m (r ∷ rows) c =
    count_rows graffiti_mode m rows (count_row graffiti_mode m r c)

-- The answer of the database: the rows, and the error behind them. `none`: no row was counted, for
-- which another line is written. The map is built in graffiti mode only, that is with a graffiti set
-- that is not empty.
unfoldable pub query_status_ratios :
    Bool → SlotMap → Outcome (List (Outcome Row) × Option String) → Outcome (Option Counters)
unfolding count_rows zero_counters
query_status_ratios graffiti_mode m answer = do
  (rows, error) ← answer
  let c = count_rows graffiti_mode (if graffiti_mode then m else []) rows zero_counters
  elim error [ some e ↦ err e | none ↦ ok (if c.count == 0 then none else some c) ]
