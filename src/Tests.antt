-- ===== src/Tests.antt =====
-- Runs of the modelled code on concrete inputs, and the theorems at such inputs.
mod IndexerTests
mod EventTests
mod QueueTests
mod ProjectorTests
mod TokensTests
mod CircuitTests
mod JobTests
mod RoyaltyTests
mod BackfillTests
mod PlaylistTests
mod WebhookTests
mod SubscriptionTests
mod ApiKeyTests
