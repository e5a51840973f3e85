-- ===== src/Client.antt =====
-- The browser's side, frontend/src: the parts that decide something.
pub mod Api
pub mod Cache
