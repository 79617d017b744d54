-- ===== src/Services.antt =====
-- src/application/app/operations: the settings of the services beside the network.
pub mod Ddns
pub mod DdnsLaws
pub mod Subscription
pub mod SubscriptionLife
