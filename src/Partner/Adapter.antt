-- ===== src/Partner/Adapter.antt =====
-- `PretiumPartnerAdapter` of zongo/libs/partner/src/lib/pretium-adapter.service.ts and
-- `normalizePartnerError` of zongo/libs/partner/src/lib/partner-error.ts. The two texts that are
-- found by regular expressions are parameters.
use zongo_v.Prelude.{ℕ, Bool, false, ◌||◌, Option, some, String, leb, ◌==◌, if◌then◌else◌}
use zongo_v.Db.Monad.{Thrown}
use zongo_v.Db.Env.{Env}
use zongo_v.Worker.Ports.{
  PartnerRequest, PartnerError, PartnerResult, PartnerStatusResult, Phase, Services,
}
use zongo_v.Partner.Client.{
  ClientError, Attempt, done, failed, Accepted, Wire, client_collect, client_payout, client_status,
}

pub record Messages : Type 0 where
  -- `safeProviderMessage`
  pub safe : String → String
  -- `/timed?\s*out|temporar|unavailable|network/i.test(message)`
  pub is_temporary : String → Bool

abbrev pub is_retryable_status : ℕ → Bool
is_retryable_status s = s == 408 || s == 429 || leb 500 s

abbrev pub code_for : Bool → String
code_for is_temporary = if is_temporary then "TEMPORARY_FAILURE" else "REQUEST_FAILED"

abbrev pub normalized : Messages → String → Bool → PartnerError
normalized m raw by_status = record {
  code = code_for (m.is_temporary raw);
  message = m.safe raw;
  retryable = m.is_temporary raw || by_status;
}

-- `normalizePartnerError`
unfoldable pub normalize : Messages → ClientError → PartnerError
normalize m (ClientError.partner e) = e
normalize m (ClientError.http status raw) = normalized m raw (is_retryable_status status)
normalize m (ClientError.other raw) = normalized m raw false

abbrev pub as_result : Messages → Attempt Accepted → PartnerResult
as_result m (done a) = PartnerResult.accepted a.partner_reference (some a.status)
as_result m (failed e) = PartnerResult.refused (normalize m e)

abbrev pub as_status_result : Messages → Attempt Accepted → PartnerStatusResult
as_status_result m (done a) = PartnerStatusResult.known a.status (some a.partner_reference)
as_status_result m (failed e) = PartnerStatusResult.unknown (normalize m e)

unfoldable pub adapter_collect : Env → Wire → Messages → PartnerRequest → PartnerResult
adapter_collect env wire m r = as_result m (client_collect env wire r)

unfoldable pub adapter_payout : Env → Wire → Messages → PartnerRequest → PartnerResult
adapter_payout env wire m r = as_result m (client_payout env wire r)

unfoldable pub adapter_status : Env → Wire → Messages → String → Phase → PartnerStatusResult
adapter_status env wire m reference phase =
    as_status_result m (client_status env wire reference phase)

-- The services of a worker whose partner is the adapter.
unfoldable pub pretium_services :
    Env → Wire → Messages → Bool → Option (String → String → Option Thrown) → Services
pretium_services env wire m protected send = record {
  collect = adapter_collect env wire m;
  payout = adapter_payout env wire m;
  status = adapter_status env wire m;
  protected = protected;
  send = send;
}
