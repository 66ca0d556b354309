-- ===== src/Common/Log.antt =====
-- bryllite-common/clog.hpp: the enums of the log with their values, and the fields of class CLog;
-- its code is closed.
use Prim.Native.String.{String}
use bcp_concept_prototype.Prelude.{ℕ}

-- enum class Color; `default` is another name of gray
pub data Color : Type 0 where
  black white gray red green blue yellow magenta cyan : Color
  bright_red bright_green bright_blue bright_yellow bright_magenta bright_cyan : Color

abbrev pub default : Color
default = gray

-- enum class Attribute
pub data Attribute : Type 0 where
  none time source callstack file all : Attribute

unfoldable pub attribute_value : Attribute → ℕ
attribute_value none = 0x0000
attribute_value time = 0x0001
attribute_value source = 0x0002
attribute_value callstack = 0x0004
attribute_value file = 0x0008
attribute_value all = 0xffff

-- enum class Level
pub data Level : Type 0 where
  off fatal error warning notice verbose info debug trace user all_levels : Level

unfoldable pub level_value : Level → ℕ
level_value off = 0x0000
level_value fatal = 0x0001
level_value error = 0x0002
level_value warning = 0x0004
level_value notice = 0x0008
level_value verbose = 0x0010
level_value info = 0x0020
level_value debug = 0x0040
level_value trace = 0x0080
level_value user = 0x0100
level_value all_levels = 0xffff

-- the fields of class CLog, less its lock and its file stream
pub record CLog : Type 0 where
  pub log_file : String
  pub last_log_file : String
  pub log_attr : ℕ
  pub log_filter : ℕ

-- the macros fatal, elog, wlog, nlog, ilog, dlog, tlog, ulog and log
pub data LogMacro : Type 0 where
  fatal_macro elog wlog nlog ilog dlog tlog ulog log_macro : LogMacro

unfoldable pub macro_level : LogMacro → Level
macro_level fatal_macro = fatal
macro_level elog = error
macro_level wlog = warning
macro_level nlog = notice
macro_level ilog = info
macro_level dlog = debug
macro_level tlog = trace
macro_level ulog = user
macro_level log_macro = verbose
