-- ===== src/Api.antt =====
-- ui/src/lib/api.ts: the shapes on the wire, and the requests (`Request`).
pub mod Fleet
pub mod Reports
pub mod Demand
pub mod Request
