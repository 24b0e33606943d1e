-- ===== src/Request.antt =====
-- core/request: the request store.
pub mod Types
pub mod Valid
pub mod Index
pub mod Storage
pub mod Lifecycle
pub mod Retention
pub mod Admission
pub mod Delivery
pub mod Receipts
pub mod Release
pub mod Recovery
