-- ===== src/Config/Load.antt =====
-- src/config.rs: `ServerConfig::load`, with the `toml` crate as a parameter.
use clandestine.Prelude.{String, Option, none, some, if◌then◌else◌}
use clandestine.Prelude.Assoc
use clandestine.Prelude.Eq.{string_eq}
use clandestine.Config.{ServerConfig}
use clandestine.Database.{Disk}
use clandestine.Error.{Result, ok, err}

-- The `toml` crate: the configuration that a text holds, or an error.
pub record Toml : Type 0 where
  pub from_str : String → Result ServerConfig String

-- `fs::read_to_string`
unfoldable pub read_to_string : Disk → String → Option String → Result String String
read_to_string disk path none = err "No such file or directory"
read_to_string disk path (some contents) =
    if disk.readable path then ok contents else err "Permission denied"

abbrev pub parsed : Toml → Result String String → Result ServerConfig String
parsed toml (err e) = err e
parsed toml (ok contents) = toml.from_str contents

unfoldable pub load : Toml → Disk → String → Result ServerConfig String
unfolding read_to_string
load toml disk path = parsed toml (read_to_string disk path (Assoc.get path disk.files))
