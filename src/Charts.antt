-- ===== src/Charts.antt =====
-- web/nasa_web/static/js/charts.js: the data that the charts draw.
pub mod Gaps
pub mod Bars
pub mod Sparkline
pub mod Lines
pub mod Timeline
