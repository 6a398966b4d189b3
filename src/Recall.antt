-- ===== src/Recall.antt =====
-- acdp_verifier/recall.py: the consumer of a registry's change feed.
pub mod Consumer
pub mod Redelivery
pub mod Delivery
pub mod Tests
