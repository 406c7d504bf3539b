-- ===== src/Lib.antt =====
-- The backend of Zongo, remittances over WhatsApp: the services that move a transfer from a chat
-- through the collection of the sender's money to the payout, and the controls around them.
--
-- A request of the chat passes the throttle, and `initiate` checks the pilot controls, the session,
-- the sender, the beneficiary, the corridor and the limits, stores the transfer and queues its
-- collection job. A worker claims the job for a minute, asks the payment partner, and by its answer
-- posts the ledger entries, moves the transfer on and queues the payout, a status recheck or a
-- notification. A callback of the partner only asks for a recheck (`apply`), or moves a transfer in
-- the same way (`handlePartnerCallback`). The dispatcher polls the jobs and sweeps the transfers for
-- rechecks and reconciliations. Senders are verified and beneficiaries revised by services of their
-- own, and the chat opens and closes the session that a transfer needs. Every change of status is
-- checked by the lifecycle policy, except that of a failed job (`fail`). The reconciliation
-- compares the ledger with the status, and the exposure monitor pauses new transfers at the limits.
--
-- The files, each with the code it is about:
--   Prelude     Boolean tests, lists of rows, integers: shared helpers
--   Domain      zongo/libs/domain/src/lib/transfer-lifecycle-policy.ts and transfer-transaction.ts:
--               `can_transition` is where `assertTransition` returns
--   Db          Rows: the tables of zongo/prisma/schema.prisma, one record each, by subject;
--               Monad: a service call, with `transaction` for `prisma.$transaction` and the errors
--               thrown; Env: what a call takes from outside; Checks, Invariant, Inversion, Tags: lemmas on these
--   Ledger      zongo/libs/ledger/src/ledger.service.ts: Derive (`deriveReconciliation`), Posting
--               (`appendLifecycleEntries`, `persistReconciliation`); Balance, Idempotence and Cycle
--               hold the theorems
--   Whatsapp    zongo/libs/whatsapp/src/whatsapp-ingress-throttle.service.ts: Throttle (`consume`)
--               and, for the theorems, Throttling; zongo/libs/whatsapp/src/whatsapp.service.ts:
--               Message (`parseWhatsAppMessage`), Inbound (`acceptInbound`), Expiry
--               (`expireSession`), Intents (`createNotificationIntent`) and, for the theorems, Keys,
--               Conversations, Replays and Notices
--   Exposure    zongo/apps/worker/src/pilot-exposure-monitor.service.ts: Monitor (`evaluate`) and,
--               for the theorems, Pausing
--   Transfer    zongo/libs/transfer/src/transfer-initiation.service.ts: Input, Checks, Exposure and
--               Initiate (`initiate`); Guarantees and Paused hold the theorems,
--               Admission, Facts and Writes their lemmas
--   Worker      zongo/apps/worker/src/worker-job.processor.ts: Claim, Controls, Request, Leg,
--               Recheck, Notify and Process (`process`), Failure (`fail`), Sessions
--               (`resolveWaitingSession`, `recordLifecycleSuccess`), Retry
--               (`prepareManualPayoutRetry`), Callback (`handlePartnerCallback`); Ports has the
--               partner's interface of zongo/libs/domain/src/lib/partner-port.ts; Exclusion,
--               Callbacks, Retries, Pauses, Failures and Backoff hold the theorems, Frames their
--               lemmas
--   Partner     zongo/libs/partner/src/lib: Status (the partner's words), Client
--               (`PretiumHttpClient`), Adapter (`PretiumPartnerAdapter`, `normalizePartnerError`),
--               Webhook (`apply` of pretium-webhook.service.ts) and, for the theorems, Answers and
--               Hints
--   Dispatch    zongo/apps/worker/src/durable-job-dispatcher.service.ts: Select (the poll), Sweep (the
--               two sweeps), Loop (`dispatch`) and, for the theorems, Batches, Sweeps and Rounds
--   Profile     zongo/libs/profile/src/sender-profile.service.ts: Accounts (`create`, the limits),
--               Evidence (`recordTechnicalVerification`), Review (`approveVerification`,
--               `resolveVerification`, `expireVerification`), Eligibility
--               (`checkTransferEligibility`) and, for the theorems, Decisions, Standing, Allowance and
--               Agreement
--   Beneficiary zongo/libs/beneficiary/src/beneficiary.service.ts: Revisions (`create`, `revise`),
--               Selection (`listSaved`, `selectForTransfer`, `setRetryTarget`) and, for the theorems,
--               Targets and Choices
--   Alerts      zongo/apps/worker/src/admin-alert-dispatcher.service.ts: Outbox (`dispatch`, `deliver`)
--               and, for the theorems, Retries
--   Admin       zongo/apps/admin/src/admin.service.ts: Actors (`requireActor`, `record`), Controls
--               (`setPilotControl`, `isolateProviderMovement`), Handling (alerts, rechecks,
--               reconciliations and payout retries), Policies (blocks, caps, allowlist, exposure
--               policy, reviews), Commands (all of these as data), Logins (logins, sessions and
--               break-glass access) and, for the theorems, Guards, Switches, Halts and Sessions
--   Security    zongo/libs/security/src/security.service.ts: Keys (`EnvironmentKeyProvider`), Envelope
--               (`EnvelopeEncryptionService`) and, for the theorem, Rotation. The other parts take
--               the encryption as a parameter of Db/Env, one text for each sealed value
--   Tests       concrete inputs
--
-- A table is a list of rows, and a Prisma call reads and writes it as documented: `findUnique`
-- finds the first row with the key, `updateMany` changes every row that matches, `update` and
-- `…OrThrow` throw without a row, `create` throws where a unique key that the code sets is taken,
-- and a transaction that throws undoes its writes. The database is there and answers, except that
-- the query or the transaction of a sweep may throw (`Answer`). Each call runs alone, one after
-- another; what two workers do is a sequence of such steps, so an advisory lock leaves no trace.
-- Identifiers, references and keys are texts, instants are milliseconds as natural numbers,
-- amounts are integers without bounds (BigInt), the counts of the Int columns are natural numbers.
-- The payloads of audit events, the quote snapshot and the mobile network of the partner's request
-- are not kept. The clock, generated identifiers, encryption, blind indices, the partner, the
-- notifier, the text functions of the runtime and the order of rows by a column that is not kept
-- are parameters. They carry no assumption but those that a theorem names: that a decryption opens
-- what was encrypted, and that a generated identifier is not in use. The lists are finite and
-- every loop follows one, so there is no fuel.
--
-- Not modelled: the rotation of sessions, the role changes, hardware keys, notes and readiness
-- records of the administration, of which `requirePublishedPilotReadiness` is a parameter of
-- `set_pilot_control`; the panel, the HTTP controllers and the wiring of the applications; the
-- redaction of audit payloads and the masking of texts; the cipher, the Meta notifier and the
-- signature of its webhook, which are calls of other systems; what only reads rows for display.
pub mod Prelude
pub mod Domain
pub mod Db
pub mod Ledger
pub mod Whatsapp
pub mod Exposure
pub mod Transfer
pub mod Worker
pub mod Partner
pub mod Dispatch
pub mod Profile
pub mod Beneficiary
pub mod Alerts
pub mod Security
pub mod Admin
pub mod Tests
