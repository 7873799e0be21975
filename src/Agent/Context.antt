-- ===== src/Agent/Context.antt =====
-- internal/agent/context: the records of types.go.
pub mod Loader
pub mod Requirements
pub mod Executor
pub mod Access
pub mod Trust
use dotdevops.Prelude.{String, Bool, List}
use dotdevops.Prelude.Int.{ℤ}

pub record IdentityConfig : Type 0 where
  pub user : String
  pub group : String
  pub groups : List String

pub record PrivilegeConfig : Type 0 where
  pub allow_escalation : Bool
  pub sudo_commands : List String
  pub no_password : Bool

pub record FilesystemConfig : Type 0 where
  pub read_only_paths : List String
  pub writable_paths : List String
  pub denied_paths : List String

pub record ResourceLimits : Type 0 where
  pub max_memory_mb : ℤ
  pub max_cpu_percent : ℤ
  pub max_processes : ℤ

pub record ProcessConfig : Type 0 where
  pub allowed_executables : List String
  pub denied_executables : List String
  pub environment : List (String × String)
  pub resource_limits : ResourceLimits

pub record NetworkConfig : Type 0 where
  pub allow_network : Bool
  pub allowed_ports : List ℤ
  pub scope : String

pub record AuditConfig : Type 0 where
  pub level : String
  pub log_stdout : Bool
  pub log_stderr : Bool
  pub log_env : Bool

pub record ExecutionContext : Type 0 where
  pub name : String
  pub purpose : String
  pub trust_level : String
  pub identity : IdentityConfig
  pub privilege : PrivilegeConfig
  pub filesystem : FilesystemConfig
  pub process : ProcessConfig
  pub network : NetworkConfig
  pub audit : AuditConfig
