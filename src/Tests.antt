-- ===== src/Tests.antt =====
-- Concrete inputs, and each property at one of them.
pub mod Data
mod TransferExamples
mod LedgerExamples
mod OperationsExamples
mod WorkerExamples
mod PartnerExamples
mod DispatchExamples
mod ProfileExamples
mod BeneficiaryExamples
mod ChatExamples
mod AdminExamples
mod SecurityExamples
