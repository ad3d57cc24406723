-- ===== src/Ircv3.antt =====
-- src/ircv3/mod.rs: the capabilities and their names.
use clandestine.Prelude.{String, ◌≡◌, refl, subst, ◌↔◌, if◌then◌else◌, arith, eq_iff}
use clandestine.Prelude.Eq.{◌==◌, string_eq}
use clandestine.Error.{Result, ok, err}

pub data Capability : Type 0 where
  multi_prefix extended_join server_time message_tags : Capability

-- `Display::fmt`
pub fmt : Capability → String
fmt multi_prefix = "multi-prefix"
fmt extended_join = "extended-join"
fmt server_time = "server-time"
fmt message_tags = "message-tags"

pub as_str : Capability → String
as_str multi_prefix = "multi-prefix"
as_str extended_join = "extended-join"
as_str server_time = "server-time"
as_str message_tags = "message-tags"

-- `FromStr::from_str`
pub from_str : String → Result Capability (Unit {0})
from_str s =
    if s == "multi-prefix"
    then ok multi_prefix
    else if s == "extended-join"
    then ok extended_join
    else if s == "server-time"
    then ok server_time
    else if s == "message-tags"
    then ok message_tags
    else err tt

from_str-fmt : (c : Capability) → (from_str (fmt c) ≡ ok c) × (as_str c ≡ fmt c)
unfolding fmt as_str from_str
from_str-fmt multi_prefix = (refl, refl)
from_str-fmt _ = (refl, refl)

fmt_of_from_str : (s : String) (c : Capability) → from_str s ≡ ok c → fmt c ≡ s
unfolding fmt from_str
fmt_of_from_str s c h = ground (
  arith,
  eq_iff s "multi-prefix",
  eq_iff s "extended-join",
  eq_iff s "server-time",
  eq_iff s "message-tags",
)

-- A text is read as a capability exactly when it is the name that `Display` prints for it, which is
-- also the one that `as_str` gives.
pub from_str_iff :
    (s : String) (c : Capability) → ((from_str s ≡ ok c) ↔ (fmt c ≡ s)) × (as_str c ≡ fmt c)
from_str_iff s c = (
  (fmt_of_from_str s c, λ e. subst (λ t. from_str t ≡ ok c) e (from_str-fmt c).0),
  (from_str-fmt c).1,
)
