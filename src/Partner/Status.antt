-- ===== src/Partner/Status.antt =====
-- The partner's words for a status: `mapStatus` of
-- zongo/libs/partner/src/lib/pretium-webhook.service.ts, and the status mappings of
-- zongo/libs/partner/src/lib/pretium-adapter.ts.
use zongo_v.Prelude.{Bool, true, false, ◌||◌, Option, none, some, String, str_eq, if◌then◌else◌}
use zongo_v.Domain.Lifecycle.{TransferStatus, status_eq}
use zongo_v.Db.Env.{Env}
use zongo_v.Worker.Ports.{Phase}

abbrev pub is_success_word : String → Bool
is_success_word w = str_eq w "COMPLETE" || str_eq w "SUCCESS" || str_eq w "SUCCEEDED"

abbrev pub is_failure_word : String → Bool
is_failure_word w = str_eq w "FAILED" || str_eq w "FAILURE" || str_eq w "REJECTED"

-- `payout` in `mapStatus`
abbrev pub in_payout : TransferStatus → Bool
in_payout current =
    status_eq current TransferStatus.pending_payout
    || status_eq current TransferStatus.payout_success
    || status_eq current TransferStatus.payout_failed

unfoldable pub map_status : Env → String → TransferStatus → TransferStatus
map_status env provider_status current =
    let normalized = env.upper provider_status in
    let payout = in_payout current in
    if is_success_word normalized
    then (if payout then TransferStatus.payout_success else TransferStatus.collection_success)
    else (if is_failure_word normalized
        then (if payout then TransferStatus.payout_failed else TransferStatus.collection_failed)
        else (if payout then TransferStatus.pending_payout else TransferStatus.pending_collection))

abbrev pub is_payout : Phase → Bool
is_payout Phase.collection = false
is_payout Phase.payout = true

-- `typeof value === 'string' ? value.toUpperCase() : ''`
abbrev pub normalized_word : Env → Option String → String
normalized_word env none = ""
normalized_word env (some w) = env.upper w

-- The status of a lookup, success first.
unfoldable pub lookup_status : Env → Phase → Option String → TransferStatus
lookup_status env phase value =
    let status = normalized_word env value in
    if is_success_word status
    then (if is_payout phase
        then TransferStatus.payout_success
        else TransferStatus.collection_success)
    else (if is_failure_word status
        then (if is_payout phase
            then TransferStatus.payout_failed
            else TransferStatus.collection_failed)
        else (if is_payout phase
            then TransferStatus.pending_payout
            else TransferStatus.pending_collection))

-- `initiationStatus`, failure first.
unfoldable pub initiation_status : Env → Phase → Option String → TransferStatus
initiation_status env phase value =
    let status = normalized_word env value in
    if is_failure_word status
    then (if is_payout phase
        then TransferStatus.payout_failed
        else TransferStatus.collection_failed)
    else (if is_success_word status
        then (if is_payout phase
            then TransferStatus.payout_success
            else TransferStatus.collection_success)
        else (if is_payout phase
            then TransferStatus.pending_payout
            else TransferStatus.pending_collection))
