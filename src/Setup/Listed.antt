-- ===== src/Setup/Listed.antt =====
-- What readSQLFiles returns: the migrations of the directory, in the order of their names.
use mathlib.Core.List.{Perm}
use mathlib.Core.List.Perm
use mathlib.Core.Path.{subst}
use jack_courier_driver_pglg.Prelude.{
  ◌≡◌, refl, ◌⊎◌, inl, inr, List, [], ◌∷◌, Bool, true, false, Option, none, some, Bytes, codes,
  arith, Bool-cases, if◌then◌else◌,
}
use jack_courier_driver_pglg.Partition.Replica.{text_leb}
use jack_courier_driver_pglg.Setup.Failures.{Attempt, done, failed}
use jack_courier_driver_pglg.Setup.Text.{has_suffix}
use jack_courier_driver_pglg.Setup.Files.{
  Entry, SqlFile, is_sql, add_file, read_files, insert_file, sort_files, sorted, read_sql_files,
}

-- The files of a directory: each entry that is no directory and whose name ends in ".sql", with its
-- content; every other entry is left out.
pub data Lists : List Entry → List SqlFile → Type 0 where
  at_end : Lists [] []
  leaves :
      (e : Entry) (es : List Entry) (fs : List SqlFile)
      → (e.is_dir ≡ true) ⊎ (has_suffix (codes ".sql") e.name ≡ false)
      → Lists es fs
      → Lists (e ∷ es) fs
  reads :
      (e : Entry) (es : List Entry) (content : Bytes) (fs : List SqlFile)
      → e.is_dir ≡ false
      → has_suffix (codes ".sql") e.name ≡ true
      → e.content ≡ some content
      → Lists es fs
      → Lists (e ∷ es) (record { name = e.name; content = content } ∷ fs)

-- Each name is at most the next one.
abbrev pub IsOrdered : List SqlFile → Type 0
IsOrdered [] = Unit
IsOrdered (f ∷ []) = Unit
IsOrdered (f ∷ g ∷ gs) = (text_leb f.name g.name ≡ true) × IsOrdered (g ∷ gs)

text_leb_total : (s t : Bytes) → text_leb s t ≡ false → text_leb t s ≡ true
unfolding text_leb
text_leb_total [] t h = ground arith
text_leb_total (a ∷ s) [] h = refl
text_leb_total (a ∷ s) (b ∷ t) h = ground (arith, text_leb_total s t)

insert_behind :
    (g f : SqlFile) (gs : List SqlFile)
    → text_leb g.name f.name ≡ true
    → IsOrdered (g ∷ gs)
    → IsOrdered (g ∷ insert_file f gs)
unfolding insert_file
insert_behind g f [] low h = (low, tt)
insert_behind g f (k ∷ ks) low (next, h) = elim (Bool-cases (text_leb f.name k.name)) [
  | inl before ↦ rw before (low, (before, h))
  | inr behind ↦ rw behind (next, insert_behind k f ks (text_leb_total f.name k.name behind) h)
]

insert_file-IsOrdered :
    (f : SqlFile) (fs : List SqlFile) → IsOrdered fs → IsOrdered (insert_file f fs)
unfolding insert_file
insert_file-IsOrdered f [] h = tt
insert_file-IsOrdered f (g ∷ gs) h = elim (Bool-cases (text_leb f.name g.name)) [
  | inl low ↦ rw low (low, h)
  | inr high ↦ rw high (insert_behind g f gs (text_leb_total f.name g.name high) h)
]

insert_file-Perm : (f : SqlFile) (fs : List SqlFile) → Perm (insert_file f fs) (f ∷ fs)
unfolding insert_file
insert_file-Perm f [] = Perm.refl (f ∷ [])
insert_file-Perm f (g ∷ gs) = elim (Bool-cases (text_leb f.name g.name)) [
  | inl low ↦ rw low (Perm.refl (f ∷ g ∷ gs))
  | inr high ↦ rw high (Perm.trans (Perm.cons g (insert_file-Perm f gs)) (Perm.swap f g gs))
]

sort_files-Perm : (fs : List SqlFile) → Perm (sort_files fs) fs
unfolding sort_files
sort_files-Perm [] = Perm.refl []
sort_files-Perm (f ∷ fs) =
    Perm.trans (insert_file-Perm f (sort_files fs)) (Perm.cons f (sort_files-Perm fs))

sort_files-IsOrdered : (fs : List SqlFile) → IsOrdered (sort_files fs)
unfolding sort_files
sort_files-IsOrdered [] = tt
sort_files-IsOrdered (f ∷ fs) = insert_file-IsOrdered f (sort_files fs) (sort_files-IsOrdered fs)

left_out :
    (e : Entry) → is_sql e ≡ false → (e.is_dir ≡ true) ⊎ (has_suffix (codes ".sql") e.name ≡ false)
unfolding is_sql
left_out e h = ground arith

is_file :
    (e : Entry) → is_sql e ≡ true → (e.is_dir ≡ false) × (has_suffix (codes ".sql") e.name ≡ true)
unfolding is_sql
is_file e h = ground arith

read_files-Lists : (es : List Entry) (fs : List SqlFile) → read_files es ≡ done fs → Lists es fs
unfolding read_files add_file
read_files-Lists [] fs h = subst (Lists []) (ground arith) at_end
read_files-Lists (e ∷ es) fs h =
    go (is_sql e) refl e.content refl (read_files es) refl (λ gs k. read_files-Lists es gs k) h
  where
    go :
        (b : Bool)
        → is_sql e ≡ b
        → (c : Option Bytes) → e.content ≡ c
        → (r : Attempt (List SqlFile)) → read_files es ≡ r
        → ((gs : List SqlFile) → r ≡ done gs → Lists es gs)
        → (if b then add_file e.name c r else r) ≡ done fs
        → Lists (e ∷ es) fs
    go false p c q r k ih h = leaves e es fs (left_out e p) (ih fs h)
    go true p none q r k ih h = absurd (ground arith)
    go true p (some c) q (failed x) k ih h = absurd (ground arith)
    go true p (some c) q (done gs) k ih h =
        let (file, suffix) = is_file e p in
        subst (Lists (e ∷ es)) (ground arith) (reads e es c gs file suffix q (ih gs refl))

-- The files that are read are those of the directory, in the order of their names.
pub record Listed (entries : Option (List Entry)) (fs : List SqlFile) : Type 0 where
  pub directory : List Entry
  pub found : entries ≡ some directory
  pub files : List SqlFile
  pub lists : Lists directory files
  pub same : Perm fs files
  pub ordered : IsOrdered fs

pub read_sql_files-Listed :
    (entries : Option (List Entry)) (fs : List SqlFile)
    → read_sql_files entries ≡ done fs
    → Listed entries fs
unfolding read_sql_files sorted
read_sql_files-Listed none fs h = absurd (ground arith)
read_sql_files-Listed (some es) fs h = go (read_files es) (λ gs k. read_files-Lists es gs k) h
  where
    go :
        (r : Attempt (List SqlFile))
        → ((gs : List SqlFile) → r ≡ done gs → Lists es gs)
        → sorted r ≡ done fs
        → Listed (some es) fs
    go (failed x) lists h = absurd (ground arith)
    go (done gs) lists h =
        let is : sort_files gs ≡ fs = ground arith in
        record {
          directory = es;
          found = refl;
          files = gs;
          lists = lists gs refl;
          same = subst (λ x. Perm x gs) is (sort_files-Perm gs);
          ordered = subst IsOrdered is (sort_files-IsOrdered gs);
        }
