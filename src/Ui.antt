-- ===== src/Ui.antt =====
-- What the pages share: URL parameters as state, and the parts of ui/src/components and ui/src/lib
-- that are not formatting.
pub mod SearchParam
pub mod Query
pub mod Widgets
pub mod Chrome
pub mod Drawer
pub mod Sparkline
pub mod Chart
