-- ===== src/Events.antt =====
-- src/endpoint_events: the routes that take events in, and the import of a CSV file.
pub mod Routers
pub mod Import
