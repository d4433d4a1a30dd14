-- ===== src/Needs.antt =====
-- ui/src/pages/Needs.tsx and the decision helpers of ui/src/pages/needsKit.tsx.
pub mod Precedence
pub mod Competition
pub mod Walk
pub mod Page
pub mod Kit
pub mod Table
pub mod Report
pub mod View
