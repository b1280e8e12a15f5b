-- ===== src/Utils/Wait/Decisive.antt =====
-- utils/utils.go: which event ends WaitForTxSubscribe.
use shutter_tests.Chain.{Receipt, Transaction, Crypto}
use mathlib.Core.List.{Mem, mem-cons_self, mem-cons_of_mem}
use shutter_tests.Prelude.{
  String, ◌⊎◌, inl, inr, arith, ℕ, List, [], ◌∷◌, Option, none, some, ◌≡◌, refl, All,
}
use shutter_tests.Utils.Wait.{
  LookupError, after_lookup, no_error, not_found, other_error, WaitEvent, ctx_done, new_head,
  sub_error, Waited, answer, wait_loop, wait_for_tx_subscribe,
}

-- A failed lookup comes without a receipt: what go-ethereum documents of TransactionReceipt.
abbrev pub IsClientAnswer : Option Receipt × LookupError → Type 0
IsClientAnswer (r, no_error) = Unit
IsClientAnswer (r, not_found) = r ≡ none
IsClientAnswer (r, other_error e) = r ≡ none

abbrev pub IsClientEvent : ℕ → WaitEvent → Type 0
IsClientEvent hash (new_head lookup) = IsClientAnswer (lookup hash)
IsClientEvent hash (ctx_done e) = Unit
IsClientEvent hash (sub_error e) = Unit

abbrev pub finds : Option Receipt × LookupError → Option Waited
finds (some r, no_error) = answer (some r) none
finds (none, no_error) = none
finds (r, not_found) = none
finds (r, other_error e) = none

-- What an event answers, if it ends the wait.
abbrev pub decides : ℕ → WaitEvent → Option Waited
decides hash (ctx_done e) = answer none (some e)
decides hash (new_head lookup) = finds (lookup hash)
decides hash (sub_error e) = answer none e

abbrev pub first_decision : ℕ → List WaitEvent → Option Waited
first_decision hash [] = none
first_decision hash (e ∷ es) = elim (decides hash e) [
  | none ↦ first_decision hash es
  | some w ↦ some w
]

after_lookup-finds :
    (hash : ℕ) (found : Option Receipt × LookupError) (es : List WaitEvent) (rest : Option Waited)
    → IsClientAnswer found
    → wait_loop hash none es ≡ rest
    → after_lookup found (wait_loop hash found.0 es)
      ≡ elim (finds found) [ none ↦ rest | some w ↦ some w ]
unfolding after_lookup
after_lookup-finds hash (some r, no_error) es rest h k = refl
after_lookup-finds hash (none, no_error) es rest h k = k
after_lookup-finds hash (r, not_found) es rest h k = rw h k
after_lookup-finds hash (r, other_error e) es rest h k = rw h k

wait_loop-first_decision :
    (hash : ℕ) (es : List WaitEvent)
    → All (IsClientEvent hash) es
    → wait_loop hash none es ≡ first_decision hash es
unfolding wait_loop
wait_loop-first_decision hash [] h = refl
wait_loop-first_decision hash (ctx_done e ∷ es) h = refl
wait_loop-first_decision hash (sub_error e ∷ es) h = refl
wait_loop-first_decision hash (new_head lookup ∷ es) h =
    after_lookup-finds hash (lookup hash) es (first_decision hash es) h.0
      (wait_loop-first_decision hash es h.1)

-- If the subscription succeeds, and failed lookups of the transaction's hash come without a receipt,
-- the wait ends with the first event that decides it: the end of the context, the end of the
-- subscription, or the first lookup that finds a receipt. It goes on as long as there is none.
pub wait-first_decision :
    (c : Crypto) (tx : Transaction) (es : List WaitEvent)
    → All (IsClientEvent (c.hash tx)) es
    → wait_for_tx_subscribe c tx none es ≡ first_decision (c.hash tx) es
unfolding wait_for_tx_subscribe
wait-first_decision c tx es h = wait_loop-first_decision (c.hash tx) es h

-- Whether a receipt that a wait has in its hands was answered for the hash at one of the heads.
abbrev pub WasLookedUp : ℕ → Receipt → List WaitEvent → Type 0
WasLookedUp hash r es =
    (look : ℕ → Option Receipt × LookupError) × Mem (new_head look) es × ((look hash).0 ≡ some r)

later-WasLookedUp :
    (hash : ℕ) (r : Receipt) (e : WaitEvent) (es : List WaitEvent)
    → WasLookedUp hash r es
    → WasLookedUp hash r (e ∷ es)
later-WasLookedUp hash r e es (look, m, found) = (look, mem-cons_of_mem e m, found)

after_lookup-returned :
    (answer : Option Receipt × LookupError) (rest : Option Waited) (r : Receipt) (x : Option String)
    → after_lookup answer rest ≡ some (record { receipt = some r; error = x })
    → (answer.0 ≡ some r) ⊎ (rest ≡ some (record { receipt = some r; error = x }))
unfolding after_lookup
after_lookup-returned (some s, no_error) rest r x h = inl (ground (arith, h))
after_lookup-returned (none, no_error) rest r x h = inr h
after_lookup-returned (s, not_found) rest r x h = inr h
after_lookup-returned (s, other_error e) rest r x h = inr h

wait_loop-WasLookedUp :
    (hash : ℕ) (es : List WaitEvent) (before : Option Receipt) (r : Receipt) (x : Option String)
    → wait_loop hash before es ≡ some (record { receipt = some r; error = x })
    → (before ≡ some r) ⊎ WasLookedUp hash r es
unfolding wait_loop
wait_loop-WasLookedUp hash [] before r x h = cc h
wait_loop-WasLookedUp hash (ctx_done e ∷ es) before r x h = inl (ground (arith, h))
wait_loop-WasLookedUp hash (sub_error e ∷ es) before r x h = inl (ground (arith, h))
wait_loop-WasLookedUp hash (new_head look ∷ es) before r x h =
    elim (after_lookup-returned (look hash) (wait_loop hash (look hash).0 es) r x h) [
      | inl found ↦ inr (look, mem-cons_self, found)
      | inr k ↦ elim (wait_loop-WasLookedUp hash es (look hash).0 r x k) [
        | inl found ↦ inr (look, mem-cons_self, found)
        | inr later ↦ inr (later-WasLookedUp hash r (new_head look) es later)
      ]
    ]

-- A receipt that WaitForTxSubscribe returns was answered for the hash of its transaction.
pub wait-WasLookedUp :
    (c : Crypto) (tx : Transaction) (subscription : Option String) (es : List WaitEvent)
    (r : Receipt) (x : Option String)
    → wait_for_tx_subscribe c tx subscription es ≡ some (record { receipt = some r; error = x })
    → WasLookedUp (c.hash tx) r es
unfolding wait_for_tx_subscribe
wait-WasLookedUp c tx (some e) es r x h = cc h
wait-WasLookedUp c tx none es r x h = elim (wait_loop-WasLookedUp (c.hash tx) es none r x h) [
  | inl e ↦ cc e
  | inr w ↦ w
]
