-- ===== src/Db/Rows/Chats.antt =====
-- WhatsApp sessions, their messages and notifications (zongo/prisma/schema.prisma).
use zongo_v.Prelude.{ℕ, Bool, Option, String, ◌==◌}

pub data SessionStatus : Type 0 where
  active waiting closed : SessionStatus

abbrev pub session_status_tag : SessionStatus → ℕ
session_status_tag active = 0
session_status_tag waiting = 1
session_status_tag closed = 2

abbrev pub session_status_eq : SessionStatus → SessionStatus → Bool
session_status_eq a b = session_status_tag a == session_status_tag b

pub data Locale : Type 0 where
  en fr sw unknown : Locale

pub record Session : Type 0 where
  pub id : String
  pub chat_id : String
  pub sender_phone_number : Option String
  pub sender_phone_ciphertext : Option String
  pub sender_phone_blind_index : Option String
  pub status : SessionStatus
  pub locale : Locale
  pub consent_given_at : Option ℕ
  pub active_chat_key : Option String
  pub transfer_id : Option String
  pub expires_at : Option ℕ

pub data IntentStatus : Type 0 where
  pending sent failed : IntentStatus

pub record NotificationIntent : Type 0 where
  pub id : String
  pub dedup_key : String
  pub transaction_id : Option String
  pub recipient_phone_ciphertext : Option String
  pub template : String
  pub status : IntentStatus
  pub attempts : ℕ
  pub next_attempt_at : Option ℕ
  pub last_error : Option String
  pub sent_at : Option ℕ

-- What a message of the chat asks for.
pub data ChatIntent : Type 0 where
  start_transfer consent cancel status help unknown : ChatIntent

-- The redacted payload is not kept.
pub record InboundEvent : Type 0 where
  pub external_event_id : String
  pub chat_id : String
  pub sender_phone_ciphertext : String
  pub sender_phone_blind_index : String
  pub intent : ChatIntent
  pub locale : Locale
  pub consent_given : Bool

pub record RateLimitBucket : Type 0 where
  pub key_hash : String
  pub window_started_at : ℕ
  pub expires_at : ℕ
  pub request_count : ℕ
