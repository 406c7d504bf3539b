-- ===== src/Transfer/Facts.antt =====
-- What each check of `initiate` in zongo/libs/transfer/src/transfer-initiation.service.ts means when
-- it passes.
use text.Mathlib.TextEquality.{eq_iff}
use zongo_v.Prelude.{
  Bool, true, false, ◌≡◌, refl, inl, inr, some, arith, find_where, any_where, count_where,
  find_where-select_where, truthy, is_some, Option-cases,
}
use zongo_v.Prelude.Int.{ℤ, ◌+ℤ◌, ◌≤ℤ◌, sum_where}
use zongo_v.Db.Rows.{
  Session, SenderProfile, Beneficiary, ControlKey, ExposurePolicy, Db, PilotControl, control_key_eq,
}
use zongo_v.Db.Tags.{control_key_eq→eq}
use zongo_v.Db.Env.{Env}
use zongo_v.Db.Monad.{ok}
use zongo_v.Transfer.Input.{InitiateTransferInput}
use zongo_v.Transfer.Checks.{
  required_keys, check_controls, check_session, check_sender, check_beneficiary,
  check_sender_limits, enabled_in, owns_key, chat_key, profile_of, is_tier_0, is_blocked,
  identity_of, beneficiary_by, per_transfer_limit, daily_limit, sent_today, is_control,
}
use zongo_v.Transfer.Exposure.{check_exposure, reaches, exceeds}
use zongo_v.Exposure.Monitor.{is_pending, since}

abbrev is_required : PilotControl → Bool
is_required c = any_where (control_key_eq c.key) required_keys

is_control-required :
    (key : ControlKey)
    → any_where (control_key_eq key) required_keys ≡ true
    → (c : PilotControl) → is_control key c ≡ true
    → is_required c ≡ true
is_control-required key wanted c h = rw (control_key_eq→eq c.key key h) wanted

module _ (env : Env) (input : InitiateTransferInput) (db : Db) where
  pub check_session-facts :
      (s : Session)
      → check_session env input db ≡ ok s
      → (find_where (owns_key (chat_key input.chat_id)) db.sessions ≡ some s)
        × (truthy s.transfer_id ≡ false)
        × (is_some s.consent_given_at ≡ true)
  unfolding check_session
  check_session-facts s h = ground arith

  pub check_sender-facts :
      (p : SenderProfile)
      → check_sender env input db ≡ ok p
      → (profile_of input.sender_profile_id db.profiles ≡ some p)
        × (is_tier_0 p.tier ≡ false)
        × (is_blocked (identity_of p.user_id db.identities) ≡ false)
  unfolding check_sender
  check_sender-facts p h = ground arith

  pub check_beneficiary-facts :
      (p : SenderProfile)
      → check_beneficiary input p db ≡ ok tt
      → (b : Beneficiary) × (beneficiary_by input.beneficiary_id db.beneficiaries ≡ some b)
        × (b.user_id ≡ p.user_id)
        × (b.corridor_id ≡ input.corridor_id)
        × (b.is_current ≡ true)
  unfolding check_beneficiary
  check_beneficiary-facts p h =
      elim (Option-cases (beneficiary_by input.beneficiary_id db.beneficiaries)) [
        | inl e ↦ absurd (ground arith)
        | inr (b, e) ↦ (
          b,
          e,
          ground (arith, eq_iff b.user_id p.user_id),
          ground (arith, eq_iff b.corridor_id input.corridor_id),
          ground arith,
        )
      ]

  pub check_sender_limits-facts :
      (p : SenderProfile)
      → check_sender_limits env input p db ≡ ok tt
      → (per_transfer : ℤ) × (daily : ℤ) × (per_transfer_limit p ≡ some per_transfer)
        × (daily_limit p ≡ some daily)
        × (input.send_amount ≤ℤ per_transfer)
        × (sum_where (sent_today env.start_of_day p.user_id) (λ t. t.send_amount) db.transactions
              +ℤ input.send_amount
            ≤ℤ daily)
  unfolding check_sender_limits
  check_sender_limits-facts p h = elim (Option-cases (per_transfer_limit p)) [
    | inl e ↦ absurd (ground arith)
    | inr (per_transfer, e) ↦ elim (Option-cases (daily_limit p)) [
      | inl f ↦ absurd (ground arith)
      | inr (daily, f) ↦ (per_transfer, daily, e, f, ground arith, ground arith)
    ]
  ]

  pub check_controls-facts :
      check_controls db ≡ ok tt
      → (enabled_in db.controls ControlKey.global ≡ true)
        × (enabled_in db.controls ControlKey.initiation ≡ true)
        × (enabled_in db.controls ControlKey.corridor_provider ≡ true)
  unfolding check_controls
  check_controls-facts h =
      let kept =
        λ (key : ControlKey) (wanted : any_where (control_key_eq key) required_keys ≡ true).
          find_where-select_where (is_control key) is_required db.controls
            (is_control-required key wanted) in
      ground (
        arith,
        kept ControlKey.global refl,
        kept ControlKey.initiation refl,
        kept ControlKey.corridor_provider refl,
      )

  pub check_policy-facts :
      (policy : ExposurePolicy)
      → db.exposure_policy ≡ some policy
      → check_exposure env input db ≡ ok tt
      → (reaches policy.max_pending_transfers (count_where is_pending db.transactions) ≡ false)
        × (exceeds policy.global_daily_send (
              sum_where (since env.start_of_day) (λ t. t.send_amount) db.transactions
              +ℤ input.send_amount)
            ≡ false)
  unfolding check_exposure
  check_policy-facts policy e h = let h' = rw (e, check_exposure) at h in ground arith
