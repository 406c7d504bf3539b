-- ===== src/Whatsapp/Replays.antt =====
-- Messages that arrive again at zongo/libs/whatsapp/src/whatsapp.service.ts.
use zongo_v.Prelude.{◌≡◌, some, String, find_where}
use zongo_v.Db.Rows.{InboundEvent, Db}
use zongo_v.Db.Env.{Env}
use zongo_v.Whatsapp.Inbound.{is_event}

-- The event of an external identifier is recorded.
abbrev Known : String → Db → Type 0
Known id db = (e : InboundEvent) × (find_where (is_event id) db.inbound_events ≡ some e)
