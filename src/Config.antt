-- ===== src/Config.antt =====
-- src/config.rs: the configuration. Load reads it.
pub mod Load
use clandestine.Prelude.{ℕ, String, Bool, List, [], Option}
use clandestine.Prelude.Int.{ℤ, pos}
use clandestine.Channel.{DateTime}

-- `u64` and `u32`, as plain numbers: the program only stores and prints them
pub record ServerInfo : Type 0 where
  pub name : String
  pub description : String
  pub sid : String
  pub bind_addr : String
  pub port : ℕ

pub record Link : Type 0 where
  pub name : String
  pub host : String
  pub port : ℕ
  pub send_password : String
  pub receive_password : String
  pub sid : String

pub record Network : Type 0 where
  pub name : String
  pub links : List Link

pub record Limits : Type 0 where
  pub max_clients : ℕ
  pub max_channels : ℕ

pub record HostmaskConfig : Type 0 where
  pub enabled : Bool
  pub format : String
  pub prefix : String

pub record KLine : Type 0 where
  pub mask : String
  pub reason : String
  pub set_by : String
  pub duration : ℤ
  pub set_time : DateTime

-- the address in its textual form
pub record DLine : Type 0 where
  pub ip : String
  pub reason : String
  pub set_by : String
  pub duration : ℤ
  pub set_time : DateTime

pub record GLine : Type 0 where
  pub mask : String
  pub reason : String
  pub set_by : String
  pub duration : ℤ
  pub set_time : DateTime

pub record ILine : Type 0 where
  pub mask : String
  pub password : Option String
  pub class : String
  pub max_connections : ℕ

pub record OLine : Type 0 where
  pub mask : String
  pub password : String
  pub flags : List String

pub record ULine : Type 0 where
  pub server : String
  pub flags : List String

pub record ALine : Type 0 where
  pub mask : String
  pub password : String
  pub class : String

pub record AccessConfig : Type 0 where
  pub klines : List KLine
  pub dlines : List DLine
  pub glines : List GLine
  pub ilines : List ILine
  pub olines : List OLine
  pub ulines : List ULine
  pub alines : List ALine

abbrev pub default_access : AccessConfig
default_access = record {
  klines = [];
  dlines = [];
  glines = [];
  ilines = [];
  olines = [];
  ulines = [];
  alines = [];
}

pub record DatabaseConfig : Type 0 where
  pub path : String
  pub persist_lines : Bool

pub record Timeouts : Type 0 where
  pub ping_interval : ℕ
  pub ping_timeout : ℕ

abbrev pub default_duration : ℤ
default_duration = pos 0

abbrev pub default_ping_interval : ℕ
default_ping_interval = 16

abbrev pub default_ping_timeout : ℕ
default_ping_timeout = 128

abbrev pub default_timeouts : Timeouts
default_timeouts = record {
  ping_interval = default_ping_interval;
  ping_timeout = default_ping_timeout;
}

pub record ServerLinkConfig : Type 0 where
  pub name : String
  pub sid : String
  pub description : String
  pub password : String
  pub address : String
  pub autoconnect : Bool
  pub ssl : Bool

pub record ServerConfig : Type 0 where
  pub server : ServerInfo
  pub network : Network
  pub limits : Limits
  pub hostmask : Option HostmaskConfig
  pub access : AccessConfig
  pub database : Option DatabaseConfig
  pub timeouts : Timeouts
  pub links : List ServerLinkConfig
