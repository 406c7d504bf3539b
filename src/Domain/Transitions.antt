-- ===== src/Domain/Transitions.antt =====
-- What the lifecycle policy of zongo/libs/domain/src/lib/transfer-lifecycle-policy.ts admits.
use zongo_v.Prelude.{◌≡◌, refl, ◌↔◌, ◌⊎◌, inl, inr, ◌∙◌, true, List, [], ◌∷◌, arith}
use zongo_v.Domain.Lifecycle.{
  TransferStatus, TransitionContext, manual_payout_retry, can_transition,
}

-- The transitions of the documented lifecycle, one constructor each.
pub data Step : TransferStatus → TransferStatus → TransitionContext → Type 0 where
  start_collection :
      {c : TransitionContext} → Step TransferStatus.initiated TransferStatus.pending_collection c
  collect :
      {c : TransitionContext}
      → Step TransferStatus.pending_collection TransferStatus.collection_success c
  fail_collection :
      {c : TransitionContext}
      → Step TransferStatus.pending_collection TransferStatus.collection_failed c
  start_payout :
      {c : TransitionContext}
      → Step TransferStatus.collection_success TransferStatus.pending_payout c
  pay_out :
      {c : TransitionContext} → Step TransferStatus.pending_payout TransferStatus.payout_success c
  fail_payout :
      {c : TransitionContext} → Step TransferStatus.pending_payout TransferStatus.payout_failed c
  retry_payout : Step TransferStatus.payout_failed TransferStatus.pending_payout manual_payout_retry

Step→can_transition :
    {a b : TransferStatus} {c : TransitionContext} → Step a b c → can_transition a b c ≡ true
unfolding can_transition
Step→can_transition start_collection = refl
Step→can_transition collect = refl
Step→can_transition fail_collection = refl
Step→can_transition start_payout = refl
Step→can_transition pay_out = refl
Step→can_transition fail_payout = refl
Step→can_transition retry_payout = refl

can_transition_refl : (a : TransferStatus) (c : TransitionContext) → can_transition a a c ≡ true
unfolding can_transition
can_transition_refl a c = ground arith

can_transition→Step :
    (a b : TransferStatus) (c : TransitionContext)
    → can_transition a b c ≡ true
    → (a ≡ b) ⊎ Step a b c
unfolding can_transition
can_transition→Step TransferStatus.initiated TransferStatus.pending_collection c h =
    inr start_collection
can_transition→Step TransferStatus.pending_collection TransferStatus.collection_success c h =
    inr collect
can_transition→Step TransferStatus.pending_collection TransferStatus.collection_failed c h =
    inr fail_collection
can_transition→Step TransferStatus.collection_success TransferStatus.pending_payout c h =
    inr start_payout
can_transition→Step TransferStatus.pending_payout TransferStatus.payout_success c h = inr pay_out
can_transition→Step TransferStatus.pending_payout TransferStatus.payout_failed c h = inr fail_payout
can_transition→Step TransferStatus.payout_failed TransferStatus.pending_payout manual_payout_retry
      h =
    inr retry_payout
can_transition→Step a b c h = inl (ground arith)

-- `assertTransition` passes exactly when the status stays the same or the step is one of the
-- documented lifecycle.
pub can_transition_iff :
    (a b : TransferStatus) (c : TransitionContext)
    → (can_transition a b c ≡ true) ↔ ((a ≡ b) ⊎ Step a b c)
can_transition_iff a b c = (
  can_transition→Step a b c,
  λ s. elim s [ inl e ↦ rw e (can_transition_refl b c) | inr t ↦ Step→can_transition t ],
)

-- A history of a transfer: each status with the context of the check that admitted it.
abbrev pub IsHistory : TransferStatus → List (TransitionContext × TransferStatus) → Type 0
IsHistory a [] = Unit
IsHistory a ((c, b) ∷ rest) = (can_transition a b c ≡ true) × IsHistory b rest

abbrev pub last_of : TransferStatus → List (TransitionContext × TransferStatus) → TransferStatus
last_of a [] = a
last_of a ((c, b) ∷ rest) = last_of b rest

abbrev pub Visits : TransferStatus → List (TransitionContext × TransferStatus) → Type 0
Visits s [] = ⊥
Visits s ((c, b) ∷ rest) = (b ≡ s) ⊎ Visits s rest

-- The statuses that come after the money was collected.
abbrev pub IsPayoutPhase : TransferStatus → Type 0
IsPayoutPhase TransferStatus.pending_payout = Unit
IsPayoutPhase TransferStatus.payout_success = Unit
IsPayoutPhase TransferStatus.payout_failed = Unit
IsPayoutPhase TransferStatus.initiated = ⊥
IsPayoutPhase TransferStatus.pending_collection = ⊥
IsPayoutPhase TransferStatus.collection_success = ⊥
IsPayoutPhase TransferStatus.collection_failed = ⊥

abbrev IsBeforePayout : TransferStatus → Type 0
IsBeforePayout TransferStatus.initiated = Unit
IsBeforePayout TransferStatus.pending_collection = Unit
IsBeforePayout TransferStatus.collection_failed = Unit
IsBeforePayout TransferStatus.collection_success = ⊥
IsBeforePayout TransferStatus.pending_payout = ⊥
IsBeforePayout TransferStatus.payout_success = ⊥
IsBeforePayout TransferStatus.payout_failed = ⊥

-- One admitted step from before the payout: still before it, or the collection has succeeded.
before_step :
    (a b : TransferStatus) (c : TransitionContext)
    → IsBeforePayout a
    → can_transition a b c ≡ true
    → IsBeforePayout b ⊎ (b ≡ TransferStatus.collection_success)
unfolding can_transition
before_step a TransferStatus.collection_success c h e = inr refl
before_step a TransferStatus.initiated c h e = inl tt
before_step a TransferStatus.pending_collection c h e = inl tt
before_step a TransferStatus.collection_failed c h e = inl tt
before_step TransferStatus.collection_success b c h e = elim h [ ]
before_step TransferStatus.pending_payout b c h e = elim h [ ]
before_step TransferStatus.payout_success b c h e = elim h [ ]
before_step TransferStatus.payout_failed b c h e = elim h [ ]
before_step a b c h e = cc

not-before-payout : (a : TransferStatus) → IsBeforePayout a → ¬ IsPayoutPhase a
not-before-payout TransferStatus.initiated h p = p
not-before-payout TransferStatus.pending_collection h p = p
not-before-payout TransferStatus.collection_failed h p = p
not-before-payout TransferStatus.collection_success h p = h
not-before-payout TransferStatus.pending_payout h p = h
not-before-payout TransferStatus.payout_success h p = h
not-before-payout TransferStatus.payout_failed h p = h

Visits-collection :
    (a : TransferStatus) (h : List (TransitionContext × TransferStatus))
    → IsBeforePayout a
    → IsHistory a h
    → IsPayoutPhase (last_of a h)
    → Visits TransferStatus.collection_success h
Visits-collection a [] k v p = not-before-payout a k p
Visits-collection a ((c, b) ∷ rest) k v p = elim (before_step a b c k v.0) [
  | inl before ↦ inr (Visits-collection b rest before v.1 p)
  | inr collected ↦ inl collected
]

-- No payout before collection: whatever statuses the policy admits one after another from
-- INITIATED, also with manual retries, a history that ends in a payout status has been in
-- COLLECTION_SUCCESS.
pub collected_before_payout :
    (h : List (TransitionContext × TransferStatus))
    → IsHistory TransferStatus.initiated h
    → IsPayoutPhase (last_of TransferStatus.initiated h)
    → Visits TransferStatus.collection_success h
collected_before_payout h v p = Visits-collection TransferStatus.initiated h tt v p

abbrev pub IsFinal : TransferStatus → Type 0
IsFinal s = (s ≡ TransferStatus.payout_success) ⊎ (s ≡ TransferStatus.collection_failed)

final_step :
    (a b : TransferStatus) (c : TransitionContext) → IsFinal a → can_transition a b c ≡ true → b ≡ a
unfolding can_transition
final_step TransferStatus.initiated b c f e = ground arith
final_step a b c f e = ground arith

-- A paid-out transfer and one whose collection failed keep their status through every history
-- that the policy admits, manual retries included.
pub final_stays :
    (a : TransferStatus) (h : List (TransitionContext × TransferStatus))
    → IsFinal a
    → IsHistory a h
    → last_of a h ≡ a
final_stays a [] f v = refl
final_stays a ((c, b) ∷ rest) f v =
    let e = final_step a b c f v.0 in final_stays b rest (rw e f) v.1 ∙ e
