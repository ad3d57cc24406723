-- ===== src/Database/Reopen.antt =====
-- What the file of src/database/mod.rs keeps.
use clandestine.Prelude.{String, true, ◌≡◌, refl, arith, eq_iff}
use clandestine.Prelude.Assoc
use clandestine.Prelude.Assoc.{get-insert}
use clandestine.Prelude.Eq.{string_eq}
use clandestine.Error.{Result, ok, err}
use clandestine.Database
use clandestine.Database.{Json, Disk, Database, DatabaseContent, open_database, save, without_mask}

abbrev reopened : Json → Disk → Database → Result String String → Result Database String
reopened json disk db r = Database.at_path json db.path (
    Database.load_file json (Database.write_file json disk db.path r).1 db.path
      (Assoc.get db.path (Database.write_file json disk db.path r).1.files))

reopened_lem :
    (json : Json) (disk : Disk) (db : Database) (r : Result String String)
    → json.to_string_pretty db.content ≡ r
    → disk.readable db.path ≡ true
    → (Database.write_file json disk db.path r).0 ≡ ok tt
    → reopened json disk db r ≡ ok db
reopened_lem json disk db (err e) p r h = ground arith
reopened_lem json disk db (ok text) p r h = ground (
  arith,
  json.from_str-to_string_pretty db.content text p,
  get-insert db.path db.path text disk.files,
  eq_iff db.path db.path,
)

-- A database that has been saved, on a disk that can be read at its path, is opened as it was.
pub open_database-save :
    (json : Json) (disk : Disk) (db : Database)
    → disk.readable db.path ≡ true
    → (save json disk db).0 ≡ ok tt
    → open_database json (save json disk db).1 db.path ≡ ok db
unfolding open_database save
open_database-save json disk db r h =
    reopened_lem json disk db (json.to_string_pretty db.content) refl r h
