-- ===== src/Cli/Config.antt =====
-- src/cli/config.rs on unix. Paths and `OsString`s are their bytes.
use replstoke.Common.{ℕ, Bool, List, Option, Bytes, codes}
use replstoke.Client.{CtlRoute}

-- A positive finite number of seconds, as its decimal text stands for it.
abbrev pub Duration : Type 0
Duration = ℕ

abbrev pub default_addr : Bytes
default_addr = codes "127.0.0.1"

abbrev pub default_port : ℕ
default_port = 44556

abbrev pub name_prefix : Bytes
name_prefix = codes ".replstoke_pid"

abbrev pub socket_suffix : Bytes
socket_suffix = codes "_socket"

abbrev pub pidfile_suffix : Bytes
pidfile_suffix = codes "_pidfile"

pub data Bind : Type 0 where
  tcp : (addr : Bytes) (port : ℕ) → Bind
  unix : (path : Option Bytes) → Bind

pub data PidfileSpec : Type 0 where
  default : PidfileSpec
  path : Bytes → PidfileSpec

pub data FileInput : Type 0 where
  stdin : FileInput
  path : Bytes → FileInput

pub data GeneralAction : Type 0 where
  help version : GeneralAction
  kill : Option Bytes → GeneralAction

pub record ServerConfig : Type 0 where
  pub repl_argv : List Bytes
  pub restart : Bool
  pub bind : Bind
  pub pidfile : Option PidfileSpec
  pub raw : Bool
  pub end_marker_stdout : Bytes
  pub end_marker_stderr : Bytes
  pub error_marker_stdout : Bytes
  pub error_marker_stderr : Bytes
  pub strip_marker_stdout : Bool
  pub strip_marker_stderr : Bool
  pub ready_marker_stdout : Bytes
  pub ready_marker_stderr : Bytes
  pub ready_wait : Option Duration
  pub ready_marker_timeout : Option Duration
  pub warmup : Bytes
  pub warmup_marker_stdout : Bytes
  pub warmup_marker_stderr : Bytes
  pub warmup_wait : Option Duration
  pub warmup_marker_timeout : Option Duration
  pub response_timeout : Option Duration

pub record ClientConfig : Type 0 where
  pub bind : Bind
  pub arginput : Option Bytes
  pub fileinput : Option FileInput
  pub suffix : Bytes
  pub end_marker_stdout : Bytes
  pub end_marker_stderr : Bytes
  pub error_marker_stdout : Bytes
  pub error_marker_stderr : Bytes
  pub strip_marker_stdout : Bool
  pub strip_marker_stderr : Bool
  pub ctl : CtlRoute
  pub raw : Bool
  pub timeout : Option Duration

pub data Config : Type 0 where
  server : ServerConfig → Config
  client : ClientConfig → Config
  general : GeneralAction → Config

-- The unix branch of `cfg!(windows)`.
abbrev pub default_end_marker_stdout : Bytes
default_end_marker_stdout = codes "\n\n"

abbrev pub default_error_marker_stderr : Bytes
default_error_marker_stderr = codes "error"
