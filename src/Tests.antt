-- ===== src/Tests.antt =====
-- The theorems at concrete inputs: a block with one transaction, on a state of one account.
mod World
mod StateExamples
mod CoreExamples
mod GuestExamples
mod ToyChannels
mod VerdictExamples
mod ProofExamples
mod ZiskExamples
mod ProgramExamples
mod HostExamples
mod SegmentExamples
mod ReportExamples
mod RecursiveExamples
mod BentoExamples
mod PrototypeExamples
