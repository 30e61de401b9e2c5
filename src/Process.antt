-- ===== src/Process.antt =====
-- crates/json-processing/src/process: the batch operations on snapshot files.
pub mod Merge
pub mod Skip
pub mod Pack
pub mod Check
pub mod Resolver
pub mod Sorted
use archivindex_wbm.Common.{Option, none, some, Result, ok, err}

-- `prefer_loop_error`.
unfoldable pub prefer_loop_error : {S E : Type 0} → S → Option E → Option E → Result S E
prefer_loop_error summary (some error) finish_error = err error
prefer_loop_error summary none (some error) = err error
prefer_loop_error summary none none = ok summary
