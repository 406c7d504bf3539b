-- ===== src/Tests/TransferExamples.antt =====
-- The lifecycle and the initiation of a transfer, at concrete inputs.
use zongo_v.Prelude.{
  ◌≤◌, true, false, ◌≡◌, refl, ◌↔◌, ◌⊎◌, some, List, [], ◌∷◌, ◌++◌, arith, find_where, count_where,
}
use zongo_v.Prelude.Int.{ℤ, pos, ◌+ℤ◌, ◌≤ℤ◌, sum_where}
use zongo_v.Domain.Lifecycle.{
  TransferStatus, TransitionContext, no_context, manual_payout_retry, can_transition,
}
use zongo_v.Domain.Transitions.{
  Step, IsHistory, Visits, can_transition_iff, collected_before_payout,
}
use zongo_v.Db.Rows.{WorkerJob, Session, Beneficiary, SenderProfile, ControlKey, Severity, Db}
use zongo_v.Db.Monad.{ok, ◌>>=◌}
use zongo_v.Transfer.Checks.{
  check_controls, check_session, check_sender, check_beneficiary, check_corridor,
  check_sender_limits, owns_key, chat_key, profile_of, is_tier_0, is_blocked, identity_of,
  beneficiary_by, enabled_in, per_transfer_limit, daily_limit, sent_today,
}
use zongo_v.Transfer.Exposure.{check_exposure, check_policy}
use zongo_v.Exposure.Monitor.{
  is_pending, since, evaluate_metric, signal, emit, pause_initiation, severity_of,
  warning_threshold, same_severity, signals_for,
}
use zongo_v.Transfer.Paused.{urgent-refuses}
use zongo_v.Transfer.Initiate.{Initiation, new_transfer, commit_transfer, admit, initiate}
use zongo_v.Transfer.Guarantees.{
  initiate-stores, IsCollectionOf, initiate-within_limits, initiate-eligible,
  initiate-within_exposure, initiate-replays,
}
use zongo_v.Profile.Eligibility.{check_transfer_eligibility}
use zongo_v.Profile.Allowance.{says_eligible}
use zongo_v.Profile.Agreement.{initiate-eligible_before}
use zongo_v.Tests.Data.{test_env, later_env, test_db, test_input, sender, test_policy}

can_transition_iff_example :
    (can_transition TransferStatus.payout_failed TransferStatus.pending_payout manual_payout_retry
      ≡ true)
    ↔ ((TransferStatus.payout_failed ≡ TransferStatus.pending_payout)
        ⊎ Step TransferStatus.payout_failed TransferStatus.pending_payout manual_payout_retry)
can_transition_iff_example =
    can_transition_iff TransferStatus.payout_failed TransferStatus.pending_payout
      manual_payout_retry

abbrev paid_history : List (TransitionContext × TransferStatus)
paid_history =
    (no_context, TransferStatus.pending_collection)
    ∷ (no_context, TransferStatus.collection_success)
    ∷ (no_context, TransferStatus.pending_payout)
    ∷ (no_context, TransferStatus.payout_failed)
    ∷ (manual_payout_retry, TransferStatus.pending_payout)
    ∷ (no_context, TransferStatus.payout_success)
    ∷ []

paid_history-IsHistory : IsHistory TransferStatus.initiated paid_history
unfolding can_transition
paid_history-IsHistory = (refl, (refl, (refl, (refl, (refl, (refl, tt))))))

collected_before_payout_example : Visits TransferStatus.collection_success paid_history
collected_before_payout_example = collected_before_payout paid_history paid_history-IsHistory tt

abbrev closed_history : List (TransitionContext × TransferStatus)
closed_history = (no_context, TransferStatus.payout_success) ∷ []

closed_history-IsHistory : IsHistory TransferStatus.payout_success closed_history
unfolding can_transition
closed_history-IsHistory = (refl, tt)

abbrev result_db : Db
result_db = (initiate test_env test_input test_db).1

abbrev made : Initiation
made = record { duplicate = false; accepted = new_transfer test_env test_input sender }

made-returned : initiate test_env test_input test_db ≡ (ok made, result_db)
unfolding initiate admit commit_transfer check_controls check_session check_sender check_beneficiary
    check_corridor check_sender_limits check_exposure check_policy ◌>>=◌ ◌+ℤ◌
made-returned = refl

initiate-replays_example :
    initiate later_env test_input result_db
    ≡ (ok (record { duplicate = true; accepted = made.accepted }), result_db)
initiate-replays_example =
    initiate-replays test_env test_input test_db made result_db made-returned refl later_env

initiate-stores_example :
    (result_db.transactions ≡ test_db.transactions ++ made.accepted ∷ [])
    × (made.accepted.status ≡ TransferStatus.initiated)
    × (made.accepted.send_amount ≡ test_input.send_amount)
    × (made.accepted.payout_amount ≡ some test_input.payout_amount)
    × ((j : WorkerJob) × (result_db.jobs ≡ test_db.jobs ++ j ∷ []) × IsCollectionOf made.accepted j)
    × ((s : Session) × (find_where (owns_key (chat_key test_input.chat_id)) result_db.sessions
          ≡ some s)
        × (s.transfer_id ≡ some made.accepted.id))
initiate-stores_example =
    initiate-stores test_env test_input test_db made result_db made-returned refl

initiate-eligible_before_example :
    says_eligible (
      check_transfer_eligibility test_env test_env.start_of_day test_input.sender_profile_id "+1555"
        test_input.send_amount test_db)
    ≡ true
initiate-eligible_before_example =
    initiate-eligible_before test_env test_input "+1555" test_db made result_db made-returned refl
      sender refl refl refl

initiate-within_limits_example :
    (p : SenderProfile) × (per_transfer : ℤ) × (daily : ℤ) × (profile_of
        test_input.sender_profile_id test_db.profiles
      ≡ some p)
    × (per_transfer_limit p ≡ some per_transfer)
    × (daily_limit p ≡ some daily)
    × (pos 1 ≤ℤ test_input.send_amount)
    × (test_input.send_amount ≤ℤ per_transfer)
    × (sum_where
          (sent_today test_env.start_of_day p.user_id)
          (λ t. t.send_amount)
          result_db.transactions
        ≤ℤ daily)
initiate-within_limits_example =
    initiate-within_limits test_env test_input test_db made result_db made-returned refl
      (omega arith)

initiate-eligible_example :
    (p : SenderProfile) × (b : Beneficiary) × (profile_of test_input.sender_profile_id
        test_db.profiles
      ≡ some p)
    × (is_tier_0 p.tier ≡ false)
    × (is_blocked (identity_of p.user_id test_db.identities) ≡ false)
    × (beneficiary_by test_input.beneficiary_id test_db.beneficiaries ≡ some b)
    × (b.user_id ≡ p.user_id)
    × (b.corridor_id ≡ test_input.corridor_id)
    × (b.is_current ≡ true)
    × (enabled_in test_db.controls ControlKey.global ≡ true)
    × (enabled_in test_db.controls ControlKey.initiation ≡ true)
    × (enabled_in test_db.controls ControlKey.corridor_provider ≡ true)
initiate-eligible_example =
    initiate-eligible test_env test_input test_db made result_db made-returned refl

initiate-within_exposure_example :
    (count_where is_pending result_db.transactions ≤ 3)
    × (sum_where (since test_env.start_of_day) (λ t. t.send_amount) result_db.transactions
        ≤ℤ pos 100000)
initiate-within_exposure_example =
    initiate-within_exposure test_env test_input test_db made result_db made-returned refl
      test_policy refl refl refl (omega arith)

abbrev paused_db : Db
paused_db =
    (evaluate_metric test_env (record { key = "pending"; observed = pos 7; limit = some (pos 3) })
      result_db).1

abbrev repeated : Initiation
repeated = record { duplicate = true; accepted = made.accepted }

paused_db-replays : initiate later_env test_input paused_db ≡ (ok repeated, paused_db)
unfolding initiate admit commit_transfer check_controls check_session check_sender check_beneficiary
    check_corridor check_sender_limits check_exposure check_policy ◌>>=◌ ◌+ℤ◌ evaluate_metric signal
    emit pause_initiation severity_of warning_threshold
paused_db-replays = refl

fresh_signal :
    same_severity Severity.urgent (find_where (signals_for "pending") result_db.signals) ≡ false
unfolding initiate admit commit_transfer check_controls check_session check_sender check_beneficiary
    check_corridor check_sender_limits check_exposure ◌>>=◌ ◌+ℤ◌
fresh_signal = refl

urgent-refuses_example : repeated.duplicate ≡ true
urgent-refuses_example =
    urgent-refuses test_env "pending" (pos 7) 2 result_db later_env test_input repeated paused_db
      (omega arith) fresh_signal paused_db-replays
