-- ===== src/Views.antt =====
-- The pages of the application: web/nasa_web/static/js/views.
pub mod History
pub mod Custom
pub mod Energy
pub mod Settings
pub mod Entities
