-- ===== src/Partner/Answers.antt =====
-- What the answers of the adapter for the partner can be (zongo/libs/partner/src/lib).
use text.Mathlib.TextEquality.{eq_iff}
use zongo_v.Prelude.{
  true, false, ◌≡◌, refl, ◌⊎◌, inl, inr, Option, some, String, arith, str_eq, Bool-cases,
  if◌then◌else◌,
}
use zongo_v.Prelude.Int.{ℤ, pos, ◌≤ℤ◌}
use zongo_v.Domain.Lifecycle.{TransferStatus, no_context, can_transition}
use zongo_v.Db.Env.{Env}
use zongo_v.Ledger.Posting.{LifecycleEvent}
use zongo_v.Worker.Ports.{Phase}
use zongo_v.Worker.Leg.{processing_status}
use zongo_v.Partner.Status.{
  is_success_word, is_failure_word, in_payout, map_status, lookup_status, initiation_status,
}
use zongo_v.Partner.Client.{
  ClientError, Attempt, done, failed, Accepted, Wire, post, exact_amount, max_safe_integer,
  client_collect, client_payout, phone_or, code_of, nonempty,
}
use zongo_v.Partner.Client

abbrev phase_of_leg : LifecycleEvent → Phase
phase_of_leg LifecycleEvent.collection = Phase.collection
phase_of_leg LifecycleEvent.payout = Phase.payout

success_words :
    (w : String)
    → is_success_word w ≡ true
    → (w ≡ "COMPLETE") ⊎ ((w ≡ "SUCCESS") ⊎ (w ≡ "SUCCEEDED"))
success_words w h = elim (Bool-cases (str_eq w "COMPLETE")) [
  | inl e ↦ inl ((eq_iff w "COMPLETE").0 e)
  | inr e ↦ elim (Bool-cases (str_eq w "SUCCESS")) [
    | inl f ↦ inr (inl ((eq_iff w "SUCCESS").0 f))
    | inr f ↦ inr (inr ((eq_iff w "SUCCEEDED").0 (ground (arith, e, f, h))))
  ]
]

-- No word means both success and failure.
words_disjoint : (w : String) → is_success_word w ≡ true → is_failure_word w ≡ false
words_disjoint w h = elim (success_words w h) [
  | inl e ↦ rw e refl
  | inr (inl e) ↦ rw e refl
  | inr (inr e) ↦ rw e refl
]

-- The partner's word for a status is read in one way: the webhook, with the status that the
-- transfer has, the status lookup and the answer to a new request agree on it, once the transfer
-- is in the phase that was asked for.
pub map_status-agrees :
    (env : Env) (word : String) (current : TransferStatus)
    → let phase = if in_payout current then Phase.payout else Phase.collection in
      (map_status env word current ≡ lookup_status env phase (some word))
      × (lookup_status env phase (some word) ≡ initiation_status env phase (some word))
unfolding map_status lookup_status initiation_status
map_status-agrees env word current =
    ground (arith, words_disjoint (env.upper word), in_payout current)

-- A successful chain.
chain-done :
    {A B : Type 0} (m : Attempt A) (k : A → Attempt B) {b : B}
    → Client.◌>>=◌ m k ≡ done b
    → (a : A) × (m ≡ done a) × (k a ≡ done b)
chain-done (done a) k h = (a, refl, h)
chain-done (failed e) k h = absurd (ground arith)

exact_amount-done :
    (amount : ℤ) {b : ℤ}
    → exact_amount amount ≡ done b
    → (b ≡ amount) × (pos 1 ≤ℤ amount) × (amount ≤ℤ max_safe_integer)
unfolding exact_amount
exact_amount-done amount h = ground arith

-- What each new request may be answered with.
initiation-step :
    (env : Env) (leg : LifecycleEvent) (word : Option String)
    → can_transition
        (processing_status leg)
        (initiation_status env (phase_of_leg leg) word)
        no_context
      ≡ true
unfolding can_transition initiation_status
initiation-step env leg word = ground arith
