-- ===== src/App.antt =====
-- src/main.py and src/routers.py: the application.
pub mod Pipeline
pub mod Endpoints
pub mod Handlers
pub mod Routes
