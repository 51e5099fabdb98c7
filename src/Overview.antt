-- ===== src/Overview.antt =====
-- web/nasa_web/static/js/views/overview.js
pub mod Resample
pub mod Flow
pub mod Pills
pub mod Today
pub mod Controls
pub mod Kpis
pub mod Lifecycle
