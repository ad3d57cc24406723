-- ===== src/Database/Lines.antt =====
-- The persisted lines of src/database/mod.rs, added and removed.
use clandestine.Prelude.{String, true, List, [], ◌∷◌, ◌++◌, if◌then◌else◌, Bool, false}
use clandestine.Prelude.Eq.{◌==◌, string_eq}
use clandestine.Config.{KLine}
use clandestine.Database
use clandestine.Database.{Database}

abbrev pub has_mask : String → List KLine → Bool
has_mask mask [] = false
has_mask mask (k ∷ ks) = let rest = has_mask mask ks in if k.mask == mask then true else rest

abbrev with_lines : List KLine → Database → Database
with_lines ks db = record db { content = record db.content { klines = ks } }

abbrev with_line : KLine → Database → Database
with_line k db = with_lines (db.content.klines ++ k ∷ []) db
