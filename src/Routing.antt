-- ===== src/Routing.antt =====
-- The model router, app/model_resolution.py with app/routing_evidence.py and app/domain/pricing.py.
pub mod Catalog
pub mod Evidence
pub mod Route
pub mod Order
pub mod Choice
pub mod Policy
pub mod Selection
