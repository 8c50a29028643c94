-- ===== src/Setup/Files.antt =====
-- readSQLFiles of cmd/pglg-setup/main.go. The names of a directory differ, so that sort.Slice by the
-- names gives one order.
use jack_courier_driver_pglg.Prelude.{
  List, [], ◌∷◌, Bool, not, ◌&&◌, Option, none, some, Bytes, codes, if◌then◌else◌,
}
use jack_courier_driver_pglg.Partition.Replica.{text_leb}
use jack_courier_driver_pglg.Setup.Failures.{Attempt, done, failed, no_directory, no_file}
use jack_courier_driver_pglg.Setup.Text.{has_suffix}

-- What fs.ReadDir lists, with what fs.ReadFile gives for it.
pub record Entry : Type 0 where
  pub name : Bytes
  pub is_dir : Bool
  pub content : Option Bytes

pub record SqlFile : Type 0 where
  pub name : Bytes
  pub content : Bytes

unfoldable pub is_sql : Entry → Bool
is_sql e = not e.is_dir && has_suffix (codes ".sql") e.name

unfoldable pub add_file : Bytes → Option Bytes → Attempt (List SqlFile) → Attempt (List SqlFile)
add_file name none rest = failed (no_file name)
add_file name (some content) (failed e) = failed e
add_file name (some content) (done files) = done (record { name = name; content = content } ∷ files)

-- the loop
unfoldable pub read_files : List Entry → Attempt (List SqlFile)
read_files [] = done []
read_files (e ∷ es) =
    let rest = read_files es in
    let added = add_file e.name e.content rest in if is_sql e then added else rest

unfoldable pub insert_file : SqlFile → List SqlFile → List SqlFile
insert_file f [] = f ∷ []
insert_file f (g ∷ gs) = if text_leb f.name g.name then f ∷ g ∷ gs else g ∷ insert_file f gs

unfoldable pub sort_files : List SqlFile → List SqlFile
sort_files [] = []
sort_files (f ∷ fs) = insert_file f (sort_files fs)

unfoldable pub sorted : Attempt (List SqlFile) → Attempt (List SqlFile)
sorted (failed e) = failed e
sorted (done files) = done (sort_files files)

unfoldable pub read_sql_files : Option (List Entry) → Attempt (List SqlFile)
read_sql_files none = failed no_directory
read_sql_files (some entries) = sorted (read_files entries)
