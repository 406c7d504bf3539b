-- ===== src/Transfer/Checks.antt =====
-- The checks of `initiate` in zongo/libs/transfer/src/transfer-initiation.service.ts before the
-- exposure limits: controls, session, sender, beneficiary, corridor and sender limits.
use zongo_v.Prelude.{
  ℕ, Bool, true, false, not, ◌&&◌, ◌||◌, Option, none, some, List, [], ◌∷◌, String, length,
  find_where, select_where, any_where, ltb, leb, ◌==◌, str_eq, is_text, is_some, truthy, template,
  if◌then◌else◌,
}
use zongo_v.Prelude.Int.{ℤ, pos, ◌+ℤ◌, ltb_ℤ, leb_ℤ, sum_where}
use zongo_v.Db.Rows.{
  Transaction, PilotControl, ControlKey, is_enabled, control_key_eq, Session, SenderProfile,
  PlatformIdentity, LimitOverride, KycTier, tier_0, tier_1, tier_2, Beneficiary, CorridorPolicy,
  currency_eq, ExposurePolicy, Db,
}
use zongo_v.Db.Env.{Env}
use zongo_v.Db.Monad.{
  domain, not_found, Result, ok, ⊤, pilot_initiation_paused, whatsapp_session_not_active,
  whatsapp_transfer_already_active, whatsapp_consent_required, pilot_allowlist_required,
  phone_not_bound, kyc_required, user_blocked, beneficiary_not_available, corridor_policy_invalid,
  transfer_amount_too_low, transfer_amount_too_high, per_transfer_limit_exceeded,
  daily_limit_exceeded,
}
use zongo_v.Db.Checks.{◌>>=◌, ◌>>◌, reject_if, some_or}
use zongo_v.Transfer.Input.{InitiateTransferInput, default_per_transfer, default_daily}

-- The three controls that a new transfer needs.
abbrev pub required_keys : List ControlKey
required_keys = ControlKey.global ∷ ControlKey.initiation ∷ ControlKey.corridor_provider ∷ []

abbrev pub is_control : ControlKey → PilotControl → Bool
is_control key c = control_key_eq c.key key

abbrev pub is_on : Option PilotControl → Bool
is_on none = false
is_on (some c) = is_enabled c.state

-- `controls.find((c) => c.key === key)?.state === 'ENABLED'`
abbrev pub enabled_in : List PilotControl → ControlKey → Bool
enabled_in controls key = is_on (find_where (is_control key) controls)

unfoldable pub check_controls : Db → Result ⊤
check_controls db =
    let controls = select_where (λ c. any_where (control_key_eq c.key) required_keys) db.controls in
    reject_if
      (not (length controls == length required_keys)
        || any_where (λ key. not (enabled_in controls key)) required_keys)
      (domain pilot_initiation_paused)

-- A phone is bound by its blind index where there is one, and by its plain column otherwise.
abbrev pub is_bound : Option String → Option String → String → String → Bool
is_bound blind_index plain index phone =
    if truthy blind_index then is_text blind_index index else is_text plain phone

abbrev pub chat_key : String → String
chat_key chat_id = template ("chat:" ∷ chat_id ∷ [])

abbrev pub owns_key : String → Session → Bool
owns_key key s = is_text s.active_chat_key key

-- The active session of the chat, with consent and without a transfer.
unfoldable pub check_session : Env → InitiateTransferInput → Db → Result Session
check_session env input db = do
  session ←
      some_or (find_where (owns_key (chat_key input.chat_id)) db.sessions)
        (domain whatsapp_session_not_active)
  reject_if
      (not (
        is_bound session.sender_phone_blind_index session.sender_phone_number
          (env.blind_index input.sender_phone_number "sender-phone") input.sender_phone_number))
      (domain whatsapp_session_not_active)
  reject_if (truthy session.transfer_id) (domain whatsapp_transfer_already_active)
  reject_if (not (is_some session.consent_given_at)) (domain whatsapp_consent_required)
  ok session

abbrev pub allowlist_required : Option ExposurePolicy → Bool
allowlist_required none = false
allowlist_required (some p) = p.allowlist_required

abbrev pub is_allowlisted : Option Bool → Bool
is_allowlisted none = false
is_allowlisted (some b) = b

abbrev pub is_tier_0 : KycTier → Bool
is_tier_0 tier_0 = true
is_tier_0 tier_1 = false
is_tier_0 tier_2 = false

abbrev pub is_blocked : Option PlatformIdentity → Bool
is_blocked none = false
is_blocked (some i) = is_some i.blocked_at

abbrev pub identity_of : String → List PlatformIdentity → Option PlatformIdentity
identity_of user_id = find_where (λ i. str_eq i.user_id user_id)

abbrev pub profile_of : String → List SenderProfile → Option SenderProfile
profile_of id = find_where (λ p. str_eq p.id id)

-- The sender: on the allowlist where one is asked for, with this phone, verified, not blocked.
unfoldable pub check_sender : Env → InitiateTransferInput → Db → Result SenderProfile
check_sender env input db = do
  profile ← some_or (profile_of input.sender_profile_id db.profiles) not_found
  reject_if
      (allowlist_required db.exposure_policy && not (is_allowlisted profile.allowlist_enabled))
      (domain pilot_allowlist_required)
  reject_if
      (not (
        is_bound profile.sender_phone_blind_index profile.sender_phone_number
          (env.blind_index input.sender_phone_number "sender-phone") input.sender_phone_number))
      (domain phone_not_bound)
  reject_if (is_tier_0 profile.tier) (domain kyc_required)
  reject_if (is_blocked (identity_of profile.user_id db.identities)) (domain user_blocked)
  ok profile

abbrev pub beneficiary_by : String → List Beneficiary → Option Beneficiary
beneficiary_by id = find_where (λ b. str_eq b.id id)

unfoldable pub check_beneficiary : InitiateTransferInput → SenderProfile → Db → Result ⊤
check_beneficiary input profile db = do
  beneficiary ← some_or (beneficiary_by input.beneficiary_id db.beneficiaries) not_found
  reject_if
      (not (str_eq beneficiary.user_id profile.user_id)
        || not (str_eq beneficiary.corridor_id input.corridor_id)
        || not beneficiary.is_current)
      (domain beneficiary_not_available)

-- `orderBy: { version: 'desc' }`, the first row: the active policy of the highest version.
abbrev pub newest : List CorridorPolicy → Option CorridorPolicy
newest [] = none
newest (p ∷ ps) = elim (newest ps) [
  | none ↦ some p
  | some q ↦ some (if ltb p.version q.version then q else p)
]

abbrev pub policy_of : String → List CorridorPolicy → Option CorridorPolicy
policy_of corridor_id ps =
    newest (select_where (λ p. str_eq p.corridor_id corridor_id && p.is_active) ps)

-- `limit && amount < limit`: a missing limit and 0n set none.
abbrev pub is_below : Option ℤ → ℤ → Bool
is_below none amount = false
is_below (some limit) amount =
    not (leb_ℤ limit (pos 0) && leb_ℤ (pos 0) limit) && ltb_ℤ amount limit

-- `limit && amount > limit`
abbrev pub is_above : Option ℤ → ℤ → Bool
is_above none amount = false
is_above (some limit) amount =
    not (leb_ℤ limit (pos 0) && leb_ℤ (pos 0) limit) && ltb_ℤ limit amount

unfoldable pub check_corridor : InitiateTransferInput → Db → Result ⊤
check_corridor input db = do
  policy ←
      some_or (policy_of input.corridor_id db.corridor_policies) (domain corridor_policy_invalid)
  reject_if
      (not (currency_eq policy.send_currency input.send_currency)
        || not (currency_eq policy.payout_currency input.payout_currency))
      (domain corridor_policy_invalid)
  reject_if (is_below policy.min_send_amount input.send_amount) (domain transfer_amount_too_low)
  reject_if (is_above policy.max_send_amount input.send_amount) (domain transfer_amount_too_high)

abbrev pub overridden : Option ℤ → Option ℤ → Option ℤ
overridden none fallback = fallback
overridden (some limit) fallback = some limit

abbrev pub override_per_transfer : Option LimitOverride → Option ℤ
override_per_transfer none = none
override_per_transfer (some o) = o.per_transfer_limit

abbrev pub override_daily : Option LimitOverride → Option ℤ
override_daily none = none
override_daily (some o) = o.daily_limit

abbrev pub per_transfer_limit : SenderProfile → Option ℤ
per_transfer_limit p =
    overridden (override_per_transfer p.tier_limit_override) (default_per_transfer p.tier)

abbrev pub daily_limit : SenderProfile → Option ℤ
daily_limit p = overridden (override_daily p.tier_limit_override) (default_daily p.tier)

-- A transfer of this sender since the start of the day.
abbrev pub sent_today : ℕ → String → Transaction → Bool
sent_today start user_id t = str_eq t.sender_user_id user_id && leb start t.created_at

unfoldable pub check_sender_limits : Env → InitiateTransferInput → SenderProfile → Db → Result ⊤
check_sender_limits env input profile db = do
  per_transfer ← some_or (per_transfer_limit profile) (domain per_transfer_limit_exceeded)
  daily ← some_or (daily_limit profile) (domain per_transfer_limit_exceeded)
  reject_if (ltb_ℤ per_transfer input.send_amount) (domain per_transfer_limit_exceeded)
  reject_if
      (ltb_ℤ daily (
        sum_where (sent_today env.start_of_day profile.user_id) (λ t. t.send_amount) db.transactions
        +ℤ input.send_amount))
      (domain daily_limit_exceeded)
