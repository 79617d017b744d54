-- ===== src/Requests.antt =====
-- src/application/app: the requests of the clients, up to the start of a worker.
pub mod WifiValidation
pub mod WifiAcceptance
pub mod Admission
pub mod Wifi
pub mod Known
pub mod Repetition
pub mod Steps
pub mod Retry
pub mod Safety
pub mod WanAdmission
pub mod Wan
pub mod WanKnown
pub mod WanRetry
pub mod WanSafety
pub mod Journal
