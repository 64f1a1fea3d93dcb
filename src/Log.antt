-- ===== src/Log.antt =====
-- src/logger.h, src/loghelpers.cpp, and the log settings of src/usvfsmanager.cpp. The library spdlog is
-- taken as the one logger that may be registered under the name "usvfs"; what a logger does with a
-- message that it is given is the library's.
pub mod Calls
use usvfs_fuse.Base.{Option, none, some, List, [], ◌∷◌, ◌++◌, Bytes}

-- `LogLevel`
pub data LogLevel : Type 0 where
  trace debug info warning error : LogLevel

-- `spdlog::level::level_enum`
pub data Level : Type 0 where
  at_trace at_debug at_info at_warn at_err at_critical at_off : Level

-- `ConvertLogLevel`, one way and the other
unfoldable pub to_level : LogLevel → Level
to_level trace = at_trace
to_level debug = at_debug
to_level info = at_info
to_level warning = at_warn
to_level error = at_err

unfoldable pub to_log_level : Level → LogLevel
to_log_level at_trace = trace
to_log_level at_debug = debug
to_log_level at_info = info
to_log_level at_warn = warning
to_log_level at_err = error
to_log_level _ = debug

-- A sink writes to the terminal, or to a file; the messages are those that the logger was given.
pub data Sink : Type 0 where
  terminal : Sink
  file_sink : Bytes → Level → Sink

pub record Logger : Type 0 where
  pub level : Level
  pub sinks : List Sink
  pub messages : List (Level × Bytes)

-- The registered logger, and `m_fileSink`.
pub record Logs : Type 0 where
  pub logger : Option Logger
  pub file : Option Sink

abbrev pub new_logger : Logger
new_logger = record { level = at_info; sinks = terminal ∷ []; messages = [] }

-- `logger::log`: where there is no logger yet one is made, and the message is not given to it.
unfoldable pub log : Level → Bytes → Logs → Logs
log level message s = elim s.logger [
  | none ↦ record s { logger = some new_logger }
  | some l ↦ record s {
    logger = some (record l { messages = l.messages ++ ((level, message) ∷ []) });
  }
]

-- What the constructor of the manager does about the log.
unfoldable pub init_log : Logs → Logs
init_log s = elim s.logger [ none ↦ record s { logger = some new_logger } | some l ↦ s ]

-- `setLogLevel`; `none`: there is no logger, and a null pointer is used.
unfoldable pub set_log_level : LogLevel → Logs → Option Logs
set_log_level level s = elim s.logger [
  | none ↦ none
  | some l ↦ some (record s { logger = some (record l { level = to_level level }) })
]

-- `setLogFile`: the logger is replaced by a new one, at the library's level for those, with the old
-- sinks and a file; a second call does nothing.
unfoldable pub set_log_file : Level → Bytes → Logs → Option Logs
set_log_file default_level name s = elim s.file [
  | some f ↦ some s
  | none ↦ elim s.logger [
    | none ↦ none
    | some l ↦ some (record {
      logger = some (record {
        level = default_level;
        sinks = l.sinks ++ (file_sink name at_debug ∷ []);
        messages = [];
      });
      file = some (file_sink name at_debug);
    })
  ]
]
