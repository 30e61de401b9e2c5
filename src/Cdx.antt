-- ===== src/Cdx.antt =====
-- crates/wbm/src/cdx: the fields of CDX records.
pub mod StatusCode
