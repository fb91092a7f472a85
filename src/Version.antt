-- ===== src/Version.antt =====
-- libmport/version_cmp.c: version strings and their order.
pub mod Compare
pub mod Require
use mport.Base.{ℕ}
