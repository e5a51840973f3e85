-- ===== src/Suites.antt =====
-- Test suites, backend/src/suites.
pub mod Rules
pub mod Service
