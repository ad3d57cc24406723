-- ===== src/Main.antt =====
-- src/main.rs: the program, from the command line to the server that runs.
pub mod Safety
use clandestine.Prelude.{String, if◌then◌else◌, Option, none, some, List}
use clandestine.Prelude.Text.{◌<>◌, decimal}
use clandestine.Prelude.Eq.{◌==◌, string_eq}
use clandestine.Error.{Result, ok, err}
use clandestine.Channel.{DateTime}
use clandestine.Cli.{Cli, generate_example_config}
use clandestine.Config.{ServerConfig, ServerInfo}
use clandestine.Config.Load.{Toml, load}
use clandestine.Database.{Json, Disk}
use clandestine.World.{Env, Server}
use clandestine.Server.Connection.{new}
use clandestine.Server.Run.{Event, Process, run, start}

pub data Level : Type 0 where
  error warn info debug trace : Level

unfoldable pub level_of : String → Level
level_of name =
    if name == "error"
    then error
    else if name == "warn"
    then warn
    else if name == "info"
    then info
    else if name == "debug"
    then debug
    else if name == "trace"
    then trace
    else info

-- What the program is started with: the command line, the disk, and what the socket layer makes of an
-- address: nothing, or an error.
pub record Setting : Type 0 where
  pub cli : Cli
  pub disk : Disk
  pub env : Env
  pub now : DateTime
  pub bind : String → Option String

-- What comes of it: a text on the standard output, an error, or a server, with the level at which it
-- logs, that has come as far as the events.
pub data Exit : Type 0 where
  printed : String → Exit
  failed : String → Exit
  served : Level → Process → Exit

abbrev pub address : ServerInfo → String
address s = s.bind_addr <> ":" <> decimal s.port

-- `server.run().await?`
abbrev pub listening : Setting → Level → List Event → Server → Option String → Exit
listening s level events server (some e) = failed e
listening s level events server none = served level (run events (start s.env s.now server))

abbrev pub started : Setting → Level → List Event → Result Server String → Exit
started s level events (err e) = failed e
started s level events (ok server) =
    listening s level events server (s.bind (address server.config.server))

abbrev pub configured : Json → Setting → Level → List Event → Result ServerConfig String → Exit
configured json s level events (err e) = failed e
configured json s level events (ok config) = started s level events (new json s.disk config)

unfoldable pub main : Toml → Json → Setting → List Event → Exit
unfolding generate_example_config level_of load new run
main toml json s events =
    if s.cli.generate_config
    then printed (generate_example_config <> "\n")
    else configured json s (level_of (s.env.to_lowercase s.cli.log_level)) events
        (load toml s.disk s.cli.config)
