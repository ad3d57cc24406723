-- ===== src/Database.antt =====
-- src/database/mod.rs: the file of persisted lines. The locks on the content are held for one
-- statement each, so a method is one step.
pub mod Reopen
pub mod Lines
use clandestine.Prelude.{
  String, Bool, not, List, [], ◌∷◌, ◌++◌, Option, none, some, ◌≡◌, if◌then◌else◌,
}
use clandestine.Prelude.Assoc
use clandestine.Prelude.Assoc.{Assoc}
use clandestine.Prelude.Eq.{◌==◌, string_eq}
use clandestine.Config.{KLine, DLine, GLine, ILine, OLine, ULine, ALine}
use clandestine.Error.{Result, ok, err}

pub record DatabaseContent : Type 0 where
  pub klines : List KLine
  pub dlines : List DLine
  pub glines : List GLine
  pub ilines : List ILine
  pub olines : List OLine
  pub ulines : List ULine
  pub alines : List ALine

-- `DatabaseContent::default`
abbrev pub default_content : DatabaseContent
default_content = record {
  klines = [];
  dlines = [];
  glines = [];
  ilines = [];
  olines = [];
  ulines = [];
  alines = [];
}

-- The `serde_json` crate: a text is read back from what is written for a content.
pub record Json : Type 0 where
  pub to_string_pretty : DatabaseContent → Result String String
  pub from_str : String → Result DatabaseContent String
  pub from_str-to_string_pretty :
      (c : DatabaseContent) (s : String) → to_string_pretty c ≡ ok s → from_str s ≡ ok c

-- The disk as the program meets it: the files by their paths, and which of them it may read and
-- which it may write.
pub record Disk : Type 0 where
  pub files : Assoc String String
  pub readable : String → Bool
  pub writable : String → Bool

pub record Database : Type 0 where
  pub path : String
  pub content : DatabaseContent

-- `serde_json::from_str(&data).unwrap_or_default()`
abbrev pub or_default : Result DatabaseContent String → DatabaseContent
or_default (ok c) = c
or_default (err e) = default_content

-- `klines.retain(|k| k.mask != mask)`
unfoldable pub without_mask : String → List KLine → List KLine
without_mask mask [] = []
without_mask mask (k ∷ ks) =
    let rest = without_mask mask ks in if not (k.mask == mask) then k ∷ rest else rest

module _ (json : Json) where
  abbrev load_file : Disk → String → Option String → Result DatabaseContent String
  load_file disk path none = ok default_content
  load_file disk path (some data_text) =
      if disk.readable path then ok (or_default (json.from_str data_text)) else err "io"

  abbrev at_path : String → Result DatabaseContent String → Result Database String
  at_path path (err e) = err e
  at_path path (ok content) = ok (record { path = path; content = content })

  -- `Database::new`
  unfoldable pub open_database : Disk → String → Result Database String
  open_database disk path = at_path path (load_file disk path (Assoc.get path disk.files))

  abbrev write_file : Disk → String → Result String String → Result (Unit {0}) String × Disk
  write_file disk path (err e) = (err e, disk)
  write_file disk path (ok text) =
      if disk.writable path
      then (ok tt, record disk { files = Assoc.insert path text disk.files })
      else (err "io", disk)

  unfoldable pub save : Disk → Database → Result (Unit {0}) String × Disk
  save disk db = write_file disk db.path (json.to_string_pretty db.content)

  -- The content in memory changes also when the file cannot be written.
  unfoldable pub add_kline : Disk → KLine → Database → Result (Unit {0}) String × Disk × Database
  unfolding save
  add_kline disk kline db =
      let db' : Database = record db {
        content = record db.content { klines = db.content.klines ++ kline ∷ [] };
      } in
      let (r, disk') = save disk db' in (r, disk', db')

  unfoldable pub remove_kline :
      Disk → String → Database → Result (Unit {0}) String × Disk × Database
  unfolding save without_mask
  remove_kline disk mask db =
      let db' : Database = record db {
        content = record db.content { klines = without_mask mask db.content.klines };
      } in
      let (r, disk') = save disk db' in (r, disk', db')

abbrev pub get_klines : Database → List KLine
get_klines db = db.content.klines
