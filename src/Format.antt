-- ===== src/Format.antt =====
-- web/nasa_web/static/js/format.js: escaping, decimals, units and ages.
pub mod Escape
pub mod Age
pub mod Units
