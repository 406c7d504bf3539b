-- ===== src/Tests/PartnerExamples.antt =====
-- The partner's statuses and callbacks, at concrete inputs.
use zongo_v.Prelude.{◌≡◌, true, some}
use zongo_v.Domain.Lifecycle.{TransferStatus}
use zongo_v.Worker.Ports.{Phase}
use zongo_v.Partner.Status.{map_status, lookup_status, initiation_status}
use zongo_v.Partner.Answers.{map_status-agrees}
use zongo_v.Partner.Webhook.{WebhookInput, apply_webhook}
use zongo_v.Partner.Hints.{SameMoney, Heard, apply_webhook-hints}
use zongo_v.Tests.Data.{test_env, old_transfer, heard_db}

map_status-agrees_example :
    (map_status test_env "COMPLETE" TransferStatus.pending_payout
      ≡ lookup_status test_env Phase.payout (some "COMPLETE"))
    × (lookup_status test_env Phase.payout (some "COMPLETE")
        ≡ initiation_status test_env Phase.payout (some "COMPLETE"))
map_status-agrees_example = map_status-agrees test_env "COMPLETE" TransferStatus.pending_payout

abbrev completed : WebhookInput
completed = record { partner_reference = "P-1"; provider_status = "COMPLETE" }

apply_webhook-hints_example :
    SameMoney heard_db (apply_webhook test_env true completed heard_db).1
    × Heard test_env completed heard_db
        (some (record old_transfer { partner_reference = some "P-1" }))
        (apply_webhook test_env true completed heard_db)
apply_webhook-hints_example = apply_webhook-hints test_env true completed heard_db
