-- ===== src/Wedge.antt =====
-- wedge/src: programs over the sthread library.
pub mod Httpd
pub mod Bench
