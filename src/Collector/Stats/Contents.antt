-- ===== src/Collector/Stats/Contents.antt =====
-- continuous/collector.go: what the report of CollectContinuousTestStats says, and when there is none.
use mathlib.Core.List.{filter}
use mathlib.Core.Logic.{if_pos}
use shutter_tests.Prelude.{
  ℕ, ◌+◌, ◌≡◌, refl, ap, subst, ◌∙◌, String, Option, List, [], ◌∷◌, map, length, arith, All,
}
use shutter_tests.Prelude.Int.{ℤ}
use shutter_tests.Prelude.Outcomes.{ok, err, >>=-eq-ok, ok_injective}
use shutter_tests.Prelude.Words.{uint64_sub}
use shutter_tests.Utils.Difference.Laws.{dec_absent, difference-filter}
use shutter_tests.Collector.Cache.{BlockCache, Success, collect_submit_incoming_tx}
use shutter_tests.Collector.Events.{Submission, collect_sequencer_events}
use shutter_tests.Collector.Pairing.{pairing}
use shutter_tests.Collector.Pairing.Partition.{
  Unmatched, dec_unmatched, pairing-failed, pairing-counts,
}
use shutter_tests.Collector.Ratios.{query_status_ratios}
use shutter_tests.Collector.Credentials.{Contracts}
use shutter_tests.Collector.Blame.{Observer, Answer, ValidatorBlame, blame_validator}
use shutter_tests.Collector.Blame.Facts.{blame_validator-IsOf}
use shutter_tests.Collector.Stats.{
  Statistics, delay_statistics, query_block_triggers, blame_all, World, Report, write_report,
  collect_continuous_test_stats,
}

abbrev pub blamed : ValidatorBlame × ℤ → ℤ × ℤ
blamed (b, ts) = (b.trigger_block, b.submit_block)

abbrev pub submitted : Submission → ℤ × ℤ
submitted s = (s.trigger, s.sequenced)

blame_all-blamed :
    (contracts : Contracts) (observer : Observer) (failed : List Submission)
    (blames : List (ValidatorBlame × ℤ))
    → blame_all contracts observer failed ≡ ok blames
    → map blamed blames ≡ map submitted failed
unfolding blame_all
blame_all-blamed contracts observer [] blames h = ground (arith, h)
blame_all-blamed contracts observer (f ∷ failed) blames h =
    let ((b, ts, e), k, l) = >>=-eq-ok (blame_validator contracts observer f) _ h in
    let (bs, m, n) = >>=-eq-ok (blame_all contracts observer failed) _ l in
    let same = blame_validator-IsOf contracts observer f b ts e k in
    subst (λ bl. map blamed bl ≡ map submitted (f ∷ failed)) (ok_injective n)
      (rw (blame_all-blamed contracts observer failed bs m, same.trigger_block, same.submit_block)
        refl)

-- What a report says of the submissions that were found and of the successes that were collected.
pub record Right {Number : Type 0} (w : World) (start_block end_block : ℕ) (success : List Success)
    (submit : List Submission) (report : Report Number) : Type 0 where
  pub triggers : List ℤ
  pub error : Option String
  pub asked : w.block_triggers start_block (uint64_sub end_block 1) ≡ ok (triggers, error)
  pub found : report.found ≡ length submit
  pub counts : length report.successful + report.fails ≡ length submit
  pub blames : map blamed report.blames ≡ map submitted (filter (dec_unmatched success) submit)
  pub trigger_count : report.triggers ≡ length triggers
  pub missed : report.missed ≡ filter (dec_absent (map (λ s. s.trigger) submit)) triggers

query_block_triggers-ok :
    (answer : Answer ℤ) (triggers : List ℤ)
    → query_block_triggers answer ≡ ok triggers
    → (error : Option String) × (answer ≡ ok (triggers, error))
unfolding query_block_triggers
query_block_triggers-ok answer triggers h =
    let ((rows, error), e, k) = >>=-eq-ok answer _ h in
    (error, subst (λ q. answer ≡ ok (q, error)) (ok_injective k) e)

write_report-Right :
    {Number : Type 0} (stats : Statistics Number) (w : World) (start_block end_block : ℕ)
    (success : List Success) (submit : List Submission) (report : Report Number)
    → write_report stats w start_block end_block submit (pairing success submit) ≡ ok report
    → Right w start_block end_block success submit report
unfolding write_report
write_report-Right stats w start_block end_block success submit report h =
    let p = pairing success submit in
    let (delays, _, h1) = >>=-eq-ok (delay_statistics stats p.delays) _ h in
    let (triggers, t, h2) =
      >>=-eq-ok (query_block_triggers (w.block_triggers start_block (uint64_sub end_block 1))) _
        h1 in
    let (blames, k, h3) = >>=-eq-ok (blame_all w.contracts w.observer p.failed) _ h2 in
    let (ratios, _, h4) =
      >>=-eq-ok
        (query_status_ratios w.graffiti_mode w.targets (w.status_rows start_block end_block)) _
        h3 in
    let (error, asked) =
      query_block_triggers-ok (w.block_triggers start_block (uint64_sub end_block 1)) triggers t in
    subst (Right w start_block end_block success submit) (ok_injective h4) (record {
      triggers = triggers;
      error = error;
      asked = asked;
      found = refl;
      counts = (pairing-counts success submit).0;
      blames =
          blame_all-blamed w.contracts w.observer p.failed blames k
          ∙ ap (map submitted) (pairing-failed success submit);
      trigger_count = refl;
      missed = difference-filter triggers (map (λ s. s.trigger) submit);
    })

-- A report is about the submissions that the events of the sequencer give: it counts each of them
-- once, as a success or a fail; it blames, in order, exactly those whose trigger no collected success
-- has, each with its trigger and its block; and the triggers that it counts are those that the database
-- answered for the blocks from the start to the last before the end, and the missed ones those of them
-- that no submission has.
pub collect_continuous_test_stats-Right :
    {Number : Type 0} (stats : Statistics Number) (w : World) (start_block end_block : ℕ)
    (cache : BlockCache) (report : Report Number)
    → (collect_continuous_test_stats stats w start_block end_block cache).0 ≡ ok report
    → (submit : List Submission) × (collect_sequencer_events start_block end_block
          (w.events start_block end_block)
        ≡ ok submit)
      × Right w start_block end_block
          (collect_submit_incoming_tx w.source start_block end_block cache).0
          submit
          report
unfolding collect_continuous_test_stats
collect_continuous_test_stats-Right stats w start_block end_block cache report h =
    let success = (collect_submit_incoming_tx w.source start_block end_block cache).0 in
    let (submit, e, k) =
      >>=-eq-ok (collect_sequencer_events start_block end_block (w.events start_block end_block)) _
        h in
    (submit, e, write_report-Right stats w start_block end_block success submit report k)

length-zero : {A : Type 0} (xs : List A) → length xs ≡ 0 → xs ≡ []
length-zero [] h = refl
length-zero (x ∷ xs) h = ground (arith, h)

filter-unmatched :
    (success : List Success) (submit : List Submission)
    → All (Unmatched success) submit
    → filter (dec_unmatched success) submit ≡ submit
filter-unmatched success [] h = refl
filter-unmatched success (s ∷ submit) (u, h) =
    rw (if_pos (dec_unmatched success s) u) (ap (◌∷◌ s) (filter-unmatched success submit h))

-- The stats library refuses an empty list. So if every submission that was found failed, there is no
-- report, and no blame is written.
pub collect_continuous_test_stats-eq-err :
    {Number : Type 0} (stats : Statistics Number) (w : World) (start_block end_block : ℕ)
    (cache : BlockCache) (submit : List Submission) (e : String)
    → stats.mean [] ≡ err e
    → collect_sequencer_events start_block end_block (w.events start_block end_block) ≡ ok submit
    → All (Unmatched (collect_submit_incoming_tx w.source start_block end_block cache).0) submit
    → (collect_continuous_test_stats stats w start_block end_block cache).0 ≡ err e
unfolding collect_continuous_test_stats write_report delay_statistics
collect_continuous_test_stats-eq-err stats w start_block end_block cache submit e m k f =
    let success = (collect_submit_incoming_tx w.source start_block end_block cache).0 in
    let counts = pairing-counts success submit in
    let empty : (pairing success submit).delays ≡ [] = length-zero (pairing success submit).delays (
      omega (
        arith,
        counts.0,
        counts.1,
        ap length (pairing-failed success submit ∙ filter-unmatched success submit f),
      )) in
    rw (k, empty, m) refl
