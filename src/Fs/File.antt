-- ===== src/Fs/File.antt =====
-- Open files and the table of them (a3/fs/file.c), and the commands on them (a3/fs/fsutil.c).
pub mod Entries
pub mod Positions
mod Tests
use comp310_w.Prelude.{
  ℕ, zero, suc, ◌+◌, ◌-◌, ◌==◌, leb, ltb, if◌then◌else◌, ◌||◌, not, Bool, true, false, Option, none,
  some, List, [], ◌∷◌, ◌++◌, Str, str_eq, set, length,
}
use comp310_w.Prelude.Int.{ℤ, pos, negsuc}
use comp310_w.Prelude.Update.{update}

-- Sums and differences of an `int` and an unsigned number.
abbrev pub add_int : ℤ → ℕ → ℤ
add_int (pos a) b = pos (a + b)
add_int (negsuc a) b = if leb b a then negsuc (a - b) else pos (b - a - 1)

abbrev pub sub_int : ℤ → ℕ → ℤ
sub_int (pos a) b = if leb b a then pos (a - b) else negsuc (b - a - 1)
sub_int (negsuc a) b = negsuc (a + b)

-- `struct file`
pub record File : Type 0 where
  pub inode : ℕ
  pub pos : ℤ
  pub deny_write : Bool

-- `file_table`, the open files by their addresses, and the inodes.
pub record Table (S : Type 0) : Type 0 where
  pub entries : List (Str × ℕ)
  pub files : ℕ → File
  pub inodes : S

-- What files use of a3/fs/inode.c: reading a number of bytes at an offset, writing bytes at an
-- offset, which returns how many were written, the length, and the calls without a result.
pub record Inodes (S : Type 0) : Type 0 where
  pub read_at : ℕ → ℕ → ℤ → S → Str × S
  pub write_at : ℕ → Str → ℤ → S → ℕ × S
  pub length_of : ℕ → S → ℕ
  pub deny : ℕ → S → S
  pub allow : ℕ → S → S
  pub close : ℕ → S → S

-- `get_file_by_fname` on the entries.
unfoldable pub find : Str → List (Str × ℕ) → Option ℕ
find fname [] = none
find fname ((name, f) ∷ entries) =
    let rest = find fname entries in if str_eq name fname then some f else rest

-- The entries without the first of a name.
unfoldable pub without : Str → List (Str × ℕ) → List (Str × ℕ)
without fname [] = []
without fname ((name, f) ∷ entries) =
    let rest = without fname entries in if str_eq name fname then entries else (name, f) ∷ rest

module _ {S : Type 0} (inodes : Inodes S) where
  abbrev pub get_file_by_fname : Str → Table S → Option ℕ
  get_file_by_fname fname t = find fname t.entries

  abbrev pub add_to_file_table : ℕ → Str → Table S → Table S
  add_to_file_table file fname t = elim (find fname t.entries) [
    | some f ↦ t
    | none ↦ record t { entries = t.entries ++ (fname, file) ∷ [] }
  ]

  -- `calloc` has returned `file`; the inode is not null.
  abbrev pub file_open : ℕ → ℕ → Table S → Table S
  file_open file inode t = record t {
    files = update t.files file (record { inode = inode; pos = pos 0; deny_write = false });
  }

  unfoldable pub file_allow_write : ℕ → Table S → Table S
  file_allow_write file t =
      if (t.files file).deny_write
      then record t {
        files = update t.files file (record (t.files file) { deny_write = false });
        inodes = inodes.allow (t.files file).inode t.inodes;
      }
      else t

  unfoldable pub file_deny_write : ℕ → Table S → Table S
  file_deny_write file t =
      if not ((t.files file).deny_write)
      then record t {
        files = update t.files file (record (t.files file) { deny_write = true });
        inodes = inodes.deny (t.files file).inode t.inodes;
      }
      else t

  -- `file_close`, on a file that is there.
  unfoldable pub file_close : ℕ → Table S → Table S
  file_close file t =
      let t' = file_allow_write file t in
      record t' { inodes = inodes.close (t'.files file).inode t'.inodes }

  unfoldable pub remove_from_file_table : Str → Table S → Bool × Table S
  remove_from_file_table fname t = elim (find fname t.entries) [
    | none ↦ (false, t)
    | some f ↦ let t' = file_close f t in (true, record t' { entries = without fname t'.entries })
  ]

  unfoldable pub file_read : ℕ → ℕ → Table S → Str × Table S
  file_read file size t =
      let f = t.files file in
      let (bytes, inodes') = inodes.read_at f.inode size f.pos t.inodes in
      (
        bytes,
        record t {
          files = update t.files file (record f { pos = add_int f.pos (length bytes) });
          inodes = inodes';
        },
      )

  -- The last byte of the buffer, which is not empty, becomes a NUL.
  unfoldable pub file_write : ℕ → Str → Table S → ℕ × Table S
  file_write file buffer t =
      let f = t.files file in
      let written = inodes.write_at f.inode (set buffer (length buffer - 1) 0) f.pos t.inodes in
      (
        written.0,
        record t {
          files = update t.files file (record f { pos = sub_int (add_int f.pos written.0) 2 });
          inodes = written.1;
        },
      )

  abbrev pub file_seek : ℕ → ℤ → Table S → Table S
  file_seek file new_pos t = record t {
    files = update t.files file (record (t.files file) { pos = new_pos });
  }

  abbrev pub file_tell : ℕ → Table S → ℤ
  file_tell file t = (t.files file).pos

  abbrev pub file_length : ℕ → Table S → ℕ
  file_length file t = inodes.length_of (t.files file).inode t.inodes

  -- `filesys_open`: the new file, and the table with it.
  module _ (filesys_open : Str → Table S → Option (ℕ × Table S)) where
    -- The file of a name, opened and put into the table if it is not there.
    unfoldable pub opened_file : Str → Table S → Option (ℕ × Table S)
    opened_file fname t = elim (find fname t.entries) [
      | some f ↦ some (f, t)
      | none ↦ elim (filesys_open fname t) [
        | none ↦ none
        | some (f, t') ↦ some (f, add_to_file_table f fname t')
      ]
    ]

    unfoldable pub fsutil_write : Str → Str → Table S → ℤ × Table S
    fsutil_write fname buffer t = elim (opened_file fname t) [
      | none ↦ (negsuc 0, t)
      | some (f, t') ↦ let written = file_write f buffer t' in (pos written.0, written.1)
    ]

    -- The number of bytes read, with the bytes.
    unfoldable pub fsutil_read : Str → ℕ → Table S → ℤ × (Str × Table S)
    fsutil_read fname size t = elim (opened_file fname t) [
      | none ↦ (negsuc 0, ([], t))
      | some (f, t') ↦ let read = file_read f size t' in (pos (length read.0), read)
    ]

    unfoldable pub fsutil_size : Str → Table S → ℤ × Table S
    fsutil_size fname t = elim (opened_file fname t) [
      | none ↦ (negsuc 0, t)
      | some (f, t') ↦ (pos (file_length f t'), file_seek f (file_tell f t') t')
    ]

    unfoldable pub fsutil_seek : Str → ℤ → Table S → ℤ × Table S
    fsutil_seek fname offset t = elim (opened_file fname t) [
      | none ↦ (negsuc 0, t)
      | some (f, t') ↦ (pos 0, file_seek f offset t')
    ]
