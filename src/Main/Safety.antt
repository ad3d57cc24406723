-- ===== src/Main/Safety.antt =====
-- What holds of the program of src/main.rs, whatever it is started with and whatever happens then.
use clandestine.Prelude.{◌+◌, ◌^◌, ◌<◌, String, true, false, List, Option, none, some, ◌≡◌}
use clandestine.Prelude.Assoc
use clandestine.Prelude.Eq.{string_eq}
use clandestine.Prelude.Text.{◌<>◌, decimal}
use clandestine.Cli.{generate_example_config}
use clandestine.Error.{ok, err}
use clandestine.Channel.{ClientId}
use clandestine.Config.{ServerConfig}
use clandestine.Config.Load.{Toml}
use clandestine.Database.{Json, Database}
use clandestine.Invariant.Events.{accepts}
use clandestine.Invariant.Registered.{IsNamed}
use clandestine.Invariant.Listed.{Listed}
use clandestine.Server.Connection.{fresh, configured_database}
use clandestine.Server.Run.{Event, Process, run, start}
use clandestine.Main.{Level, level_of, Setting, Exit, printed, failed, served}

-- Two clients whose nicknames have one lower case are one client, and a registered client has names.
abbrev pub UniqueNames : Process → Type 0
UniqueNames p =
    (i j : ClientId)
    → IsNamed (p.objects i)
      × ((a b : String)
          → (p.objects i).nickname ≡ some a
          → (p.objects j).nickname ≡ some b
          → p.env.to_lowercase a ≡ p.env.to_lowercase b
          → i ≡ j)

module _ (toml : Toml) (json : Json) (s : Setting) where
  -- The file of the configuration is there, may be read, and holds this configuration.
  pub record HasConfig (config : ServerConfig) : Type 0 where
    contents : String
    is_there : Assoc.get s.cli.config s.disk.files ≡ some contents
    is_readable : s.disk.readable s.cli.config ≡ true
    is_read : toml.from_str contents ≡ ok config

  -- What can go wrong before the server listens, each with its error.
  pub data Failure : String → Type 0 where
    no_file : Assoc.get s.cli.config s.disk.files ≡ none → Failure "No such file or directory"
    unreadable :
        (contents : String)
        → Assoc.get s.cli.config s.disk.files ≡ some contents
        → s.disk.readable s.cli.config ≡ false
        → Failure "Permission denied"
    no_config :
        {e : String} (contents : String)
        → Assoc.get s.cli.config s.disk.files ≡ some contents
        → toml.from_str contents ≡ err e
        → Failure e
    no_database :
        {e : String} (config : ServerConfig)
        → HasConfig config
        → configured_database json s.disk config.database ≡ err e
        → Failure e
    no_socket :
        {e : String} (config : ServerConfig) (db : Option Database)
        → HasConfig config
        → configured_database json s.disk config.database ≡ ok db
        → s.bind (config.server.bind_addr <> ":" <> decimal config.server.port) ≡ some e
        → Failure e

  -- A server with the configuration of the file and its database listens, at the address of the
  -- configuration, and has come from no clients as far as the events.
  pub record Serving (events : List Event) (p : Process) : Type 0 where
    config : ServerConfig
    db : Option Database
    has_config : HasConfig config
    has_database : configured_database json s.disk config.database ≡ ok db
    is_bound : s.bind (config.server.bind_addr <> ":" <> decimal config.server.port) ≡ none
    has_run : p ≡ run events (start s.env s.now (fresh config db))
    unique_names : UniqueNames p
    listed : Listed (1 + accepts events) p

  -- The text is the example of a configuration, if that was asked for; otherwise something has gone
  -- wrong, or the server is sound.
  abbrev pub IsSafe : List Event → Exit → Type 0
  IsSafe events (printed text) =
      (s.cli.generate_config ≡ true) × (text ≡ generate_example_config <> "\n")
  IsSafe events (failed e) = (s.cli.generate_config ≡ false) × Failure e
  IsSafe events (served level p) =
      (s.cli.generate_config ≡ false)
      × (level ≡ level_of (s.env.to_lowercase s.cli.log_level))
      × Serving events p

  module _ (events : List Event) (b : 1 + accepts events < 2 ^ 32)
      (asked : s.cli.generate_config ≡ false) where
    level : Level
    level = level_of (s.env.to_lowercase s.cli.log_level)
