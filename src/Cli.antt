-- ===== src/Cli.antt =====
-- src/cli.rs: the command line as `clap` gives it, and the example of a configuration.
use clandestine.Prelude.{String, Bool, false}
use clandestine.Prelude.Text.{◌<>◌}

pub record Cli : Type 0 where
  pub config : String
  pub generate_config : Bool
  pub log_level : String

-- what `clap` fills in where the command line says nothing
abbrev pub default_cli : Cli
default_cli = record { config = "config.toml"; generate_config = false; log_level = "info" }

unfoldable pub generate_example_config : String
generate_example_config =
    "# IRCd-rs Example Configuration\n" <> "\n" <> "[server]\n" <> "name = \"irc.example.com\"\n"
    <> "description = \"My IRC Server\"\n"
    <> "sid = \"001\"                # Server ID for TS6 protocol\n"
    <> "bind_addr = \"0.0.0.0\"     # Address to bind to\n"
    <> "port = 6667               # Port to listen on\n" <> "\n" <> "[network]\n"
    <> "name = \"ExampleNet\"       # Network name\n" <> "\n"
    <> "# Optional server links configuration\n" <> "# [[network.links]]\n"
    <> "# name = \"irc2.example.com\" # Name of the linked server\n"
    <> "# host = \"irc2.example.com\" # Hostname or IP of the linked server\n"
    <> "# port = 6667              # Port of the linked server\n"
    <> "# send_password = \"linkpass1\"    # Password we send to them\n"
    <> "# receive_password = \"linkpass2\" # Password we expect from them\n"
    <> "# sid = \"002\"              # Their Server ID\n" <> "\n" <> "[limits]\n"
    <> "max_clients = 1000       # Maximum number of clients\n"
    <> "max_channels = 500       # Maximum number of channels\n"
