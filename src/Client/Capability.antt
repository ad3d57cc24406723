-- ===== src/Client/Capability.antt =====
-- src/client/capability.rs: capability negotiation.
use clandestine.Prelude.{String, Bool, true, false, List, [], ◌∷◌, if◌then◌else◌}
use clandestine.Prelude.Text.{◌<>◌}
use clandestine.Prelude.Eq.{◌==◌, string_eq}
use clandestine.Error.{protocol}
use clandestine.Act.{Act, raise, set_self, modify, ◌>>◌}
use clandestine.Client.Send.{write_raw}

unfoldable pub set_negotiating : Bool → Act (Unit {0})
unfolding modify
set_negotiating b = set_self (λ c. record c { cap_negotiating = b })

abbrev pub caps : String
caps = "server-time extended-join multi-prefix message-tags"

unfoldable pub handle_cap_ls : Act (Unit {0})
handle_cap_ls = do write_raw ("CAP * LS :" <> caps <> "\r\n"); write_raw ""; set_negotiating true

unfoldable pub handle_cap_req : List String → Act (Unit {0})
handle_cap_req [] = raise (protocol "No capabilities requested")
handle_cap_req (requested ∷ more) = do
  write_raw ("CAP * ACK :" <> requested <> "\r\n")
  write_raw ""

unfoldable pub handle_cap_command : List String → Act (Unit {0})
unfolding handle_cap_ls handle_cap_req
handle_cap_command [] = raise (protocol "No CAP subcommand")
handle_cap_command (subcommand ∷ more) =
    if subcommand == "LS"
    then handle_cap_ls
    else if subcommand == "REQ"
    then handle_cap_req more
    else if subcommand == "END"
    then set_negotiating false
    else raise (protocol "Unknown CAP subcommand")
