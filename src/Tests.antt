-- ===== src/Tests.antt =====
-- Concrete runs of the payment service, of the fake provider and of the paid services, and an instance of each theorem.
mod Payments
mod Limits
mod Instances
mod Providers
mod Paid
