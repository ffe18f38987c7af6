-- ===== src/Paid/History.antt =====
-- What holds over any history of calls of the paid services.
pub mod Contexts
pub mod Impressions
pub mod Lifecycle
pub mod Evolution
