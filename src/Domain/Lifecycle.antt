-- ===== src/Domain/Lifecycle.antt =====
-- zongo/libs/domain/src/lib/transfer-transaction.ts and transfer-lifecycle-policy.ts.
use zongo_v.Prelude.{ℕ, Bool, true, false, ◌||◌, ◌&&◌, List, [], ◌∷◌, any_where, ◌==◌}

pub data TransferStatus : Type 0 where
  initiated pending_collection collection_success collection_failed : TransferStatus
  pending_payout payout_success payout_failed : TransferStatus

-- A number for each status, to compare two of them.
abbrev pub tag : TransferStatus → ℕ
tag TransferStatus.initiated = 0
tag TransferStatus.pending_collection = 1
tag TransferStatus.collection_success = 2
tag TransferStatus.collection_failed = 3
tag TransferStatus.pending_payout = 4
tag TransferStatus.payout_success = 5
tag TransferStatus.payout_failed = 6

-- `from === to`
abbrev pub status_eq : TransferStatus → TransferStatus → Bool
status_eq a b = tag a == tag b

-- The reason that `assertTransition` may be called with.
pub data TransitionContext : Type 0 where
  no_context manual_payout_retry : TransitionContext

unfoldable pub allowed_transitions : TransferStatus → List TransferStatus
allowed_transitions TransferStatus.initiated = TransferStatus.pending_collection ∷ []
allowed_transitions TransferStatus.pending_collection =
    TransferStatus.collection_success ∷ TransferStatus.collection_failed ∷ []
allowed_transitions TransferStatus.collection_success = TransferStatus.pending_payout ∷ []
allowed_transitions TransferStatus.collection_failed = []
allowed_transitions TransferStatus.pending_payout =
    TransferStatus.payout_success ∷ TransferStatus.payout_failed ∷ []
allowed_transitions TransferStatus.payout_success = []
allowed_transitions TransferStatus.payout_failed = []

abbrev is_manual_retry : TransitionContext → Bool
is_manual_retry manual_payout_retry = true
is_manual_retry no_context = false

-- `assertTransition` returns where this is true, and throws otherwise.
unfoldable pub can_transition : TransferStatus → TransferStatus → TransitionContext → Bool
unfolding allowed_transitions
can_transition from to context =
    status_eq from to
    || any_where (λ s. status_eq s to) (allowed_transitions from)
    || (status_eq from TransferStatus.payout_failed
        && status_eq to TransferStatus.pending_payout
        && is_manual_retry context)
