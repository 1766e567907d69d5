-- ===== src/Web.antt =====
-- apps/web/lib/format.ts: what the web application computes itself. apps/desktop/src/lib/format.ts
-- has the same functions.
pub mod Format
