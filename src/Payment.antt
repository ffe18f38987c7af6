-- ===== src/Payment.antt =====
-- backend/services/collaboration_payment_service.py, over the rows of
-- backend/app/models/collaboration_payment.py and backend/app/models/collaboration.py.
pub mod Model
pub mod Constraints
pub mod Session
pub mod Audit
pub mod Guards
pub mod Transition
pub mod Service
pub mod Hold
pub mod Resolution
pub mod Dispute
pub mod Completion
pub mod ProviderCalls
pub mod Calls
pub mod Permission
pub mod Steps
pub mod Rules
pub mod Effects
pub mod Keeps
pub mod Sound
pub mod History
pub mod Refusal
