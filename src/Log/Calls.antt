-- ===== src/Log/Calls.antt =====
-- src/logger.h, the calls of `logger::log` for each level.
use usvfs_fuse.Base.{Bytes}
use usvfs_fuse.Log.{Logs, log, at_trace, at_debug, at_info, at_warn, at_err, at_critical}

abbrev pub trace : Bytes → Logs → Logs
trace message s = log at_trace message s

abbrev pub debug : Bytes → Logs → Logs
debug message s = log at_debug message s

abbrev pub info : Bytes → Logs → Logs
info message s = log at_info message s

abbrev pub warn : Bytes → Logs → Logs
warn message s = log at_warn message s

abbrev pub error : Bytes → Logs → Logs
error message s = log at_err message s

abbrev pub critical : Bytes → Logs → Logs
critical message s = log at_critical message s
