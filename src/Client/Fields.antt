-- ===== src/Client/Fields.antt =====
-- src/client/mod.rs: the methods that read or set one field of a client.
use clandestine.Prelude.{ℕ, String, Option, some}
use clandestine.Channel.{ClientId}
use clandestine.World.{Client}

abbrev pub max_recvq : ℕ
max_recvq = 8192

abbrev pub get_username : Client → Option String
get_username c = c.username

abbrev pub get_nickname : Client → Option String
get_nickname c = c.nickname

abbrev pub get_realname : Client → Option String
get_realname c = c.realname

abbrev pub get_hostname : Client → String
get_hostname c = c.hostname

abbrev pub get_id : Client → ClientId
get_id c = c.id

abbrev pub get_account : Client → Option String
get_account c = c.account

abbrev pub get_ip : Client → String
get_ip c = c.ip_addr

unfoldable pub set_nickname : String → Client → Client
set_nickname nickname c = record c { nickname = some nickname }

unfoldable pub set_hostname : String → Client → Client
set_hostname hostname c = record c { hostname = hostname }
