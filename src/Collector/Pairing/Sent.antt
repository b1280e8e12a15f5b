-- ===== src/Collector/Pairing/Sent.antt =====
-- continuous/tx.go and continuous/collector.go together: a transaction that was sent, and what the
-- collector makes of its submission and its inclusion.
use mathlib.Core.List.{Mem, mem-cons, not-mem-nil, mem-filter}
use mathlib.Core.Logic.Or
use native.Mathlib.Bridge.{le_prop}
use shutter_tests.Prelude.{
  ◌≤◌, ◌≡◌, sym, ap, ◌∙◌, subst, List, [], ◌∷◌, some, get_elem?, length, arith,
}
use shutter_tests.Prelude.Int.{ℤ, pos, negsuc, ◌<ℤ◌}
use shutter_tests.Prelude.Words.{IsInt64, int64_of_big, int64_of_uint64}
use shutter_tests.Prelude.Outcomes.{ok}
use shutter_tests.Chain.{Crypto}
use shutter_tests.Utils.Account.{Account}
use shutter_tests.Utils.Prefix.{block_number_from_prefix}
use shutter_tests.Continuous.System.{System, next_account}
use shutter_tests.Continuous.Send.{Sender, SendCalls, send_shutterized_tx}
use shutter_tests.Continuous.Send.Effects.{send-trigger_recovered}
use shutter_tests.Collector.Cache.{Success, Source, Block, success_of}
use shutter_tests.Collector.Events.{Submission, SequencerEvent, submission_of}
use shutter_tests.Collector.Pairing.{pairing}
use shutter_tests.Collector.Pairing.Partition.{Unmatched, dec_unmatched, pairing-failed}

int64_of_big-IsInt64 : (n : ℤ) → pos 0 <ℤ n → IsInt64 n → int64_of_big n ≡ n
unfolding int64_of_big int64_of_uint64
int64_of_big-IsInt64 (pos n) lo h = ground (arith, h)
int64_of_big-IsInt64 (negsuc n) lo h = absurd (omega (arith, lo))

Unmatched-mem :
    (found : List Success) (s : Submission) (x : Success)
    → Unmatched found s
    → x.trigger ≡ s.trigger
    → Mem x found
    → 1 ≤ 0
Unmatched-mem [] s x u e m = absurd (not-mem-nil m)
Unmatched-mem (y ∷ found) s x (n, u) e m =
    Or.elim le_prop (mem-cons.0 m)
      (λ same. absurd (n (sym (ap (λ (z : Success). z.trigger) same) ∙ e)))
      (λ k. Unmatched-mem found s x u e k)

-- A transaction that was sent for a positive block number is never counted as failed once the
-- collector has found it in a block: whatever else was submitted and found, the submission that the
-- sequencer contract reports with its prefix is paired.
pub send-paired :
    (c : Crypto) (calls : SendCalls) (block_number target_slot : ℤ) (cfg cfg' : Sender)
    (s s' : System) (account : Account) (src : Source) (block : Block) (ev : SequencerEvent)
    (found : List Success) (submit : List Submission)
    → pos 0 <ℤ block_number
    → IsInt64 block_number
    → get_elem? cfg.accounts (next_account (length cfg.accounts) s.status) ≡ some account
    → send_shutterized_tx c calls block_number target_slot cfg s ≡ ok (cfg', s')
    → ev.identity_prefix ≡ (s'.store s.sent).prefix
    → Mem (success_of src block (s'.store s.sent).inner_tx) found
    → ¬ Mem (submission_of ev) (pairing found submit).failed
unfolding success_of submission_of
send-paired c calls block_number target_slot cfg cfg' s s' account src block ev found submit lo r a
      h prefix m failed =
    let sent =
      send-trigger_recovered c calls block_number target_slot cfg cfg' s s' account lo r a h in
    let unmatched =
      ((mem-filter (dec_unmatched found)).0
        (subst (Mem (submission_of ev)) (pairing-failed found submit) failed)).1 in
    let included : int64_of_big (s'.store s.sent).inner_tx.value ≡ block_number =
      ap int64_of_big sent.1 ∙ int64_of_big-IsInt64 block_number lo r in
    let submitted : block_number_from_prefix ev.identity_prefix ≡ block_number =
      ap block_number_from_prefix prefix ∙ sent.0 in
    let impossible =
      Unmatched-mem found (submission_of ev) (success_of src block (s'.store s.sent).inner_tx)
        unmatched (included ∙ sym submitted) m in
    absurd (omega (arith, impossible))
