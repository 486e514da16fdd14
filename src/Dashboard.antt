-- ===== src/Dashboard.antt =====
-- pkg/dashboard: the bounded logs behind the dashboard.
pub mod Buffer
pub mod Activity
pub mod History
