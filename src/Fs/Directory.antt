-- ===== src/Fs/Directory.antt =====
-- Directories (a3/fs/directory.h and a3/fs/directory.c) over the files that hold their entries.
pub mod Search
pub mod Adding
pub mod Entries
use comp310_w.Prelude.{
  ℕ, zero, suc, ◌+◌, ltb, ◌==◌, if◌then◌else◌, ◌&&◌, ◌||◌, not, Bool, true, false, Option, none,
  some, Str, str_eq, length, codes,
}
use comp310_w.Prelude.Span.{null_string}

-- `NAME_MAX`
abbrev pub name_max : ℕ
name_max = 30

-- `struct dir_entry`
pub record DirEntry : Type 0 where
  pub inode_sector : ℕ
  pub name : Str
  pub in_use : Bool

-- The files of directories by the sector of their inode: `inode_read_at` and `inode_write_at` of one
-- entry, where an offset counts entries, and a read is `none` at the end of the file; whether an
-- inode is one of a directory, and `inode_remove`.
pub record Files (S : Type 0) : Type 0 where
  pub read : ℕ → ℕ → S → Option DirEntry
  pub write : ℕ → ℕ → DirEntry → S → Bool × S
  pub is_directory : ℕ → S → Bool
  pub remove : ℕ → S → S

-- What a local `struct dir_entry` holds before it is written.
module _ {S : Type 0} (files : Files S) (unset : DirEntry) where
  -- The loop of `lookup` from an offset on; `none` means that the fuel ran out.
  unfoldable pub lookup_from : ℕ → ℕ → Str → ℕ → S → Option (Option (DirEntry × ℕ))
  lookup_from zero dir name ofs s = none
  lookup_from (suc k) dir name ofs s =
      let further = lookup_from k dir name (ofs + 1) s in
      elim (files.read dir ofs s) [
        | none ↦ some none
        | some e ↦ if e.in_use && str_eq name e.name then some (some (e, ofs)) else further
      ]

  unfoldable pub lookup : ℕ → ℕ → Str → S → Option (Option (DirEntry × ℕ))
  lookup fuel dir name s = lookup_from fuel dir name 1 s

  unfoldable pub empty_from : ℕ → ℕ → ℕ → S → Option Bool
  empty_from zero dir ofs s = none
  empty_from (suc k) dir ofs s =
      let further = empty_from k dir (ofs + 1) s in
      elim (files.read dir ofs s) [
        | none ↦ some true
        | some e ↦ if e.in_use then some false else further
      ]

  unfoldable pub dir_is_empty : ℕ → ℕ → S → Option Bool
  dir_is_empty fuel dir s = empty_from fuel dir 1 s

  -- The sector of the inode that is opened, or none.
  unfoldable pub dir_lookup : ℕ → ℕ → Str → S → Option (Option ℕ)
  dir_lookup fuel dir name s =
      let parent : DirEntry = elim (files.read dir 0 s) [ none ↦ unset | some e ↦ e ] in
      if str_eq name (codes ".")
      then some (some dir)
      else if str_eq name (codes "..")
      then some (some parent.inode_sector)
      else elim (lookup fuel dir name s) [
        | none ↦ none
        | some none ↦ some none
        | some (some (e, ofs)) ↦ some (some e.inode_sector)
      ]

  -- The slot that `dir_add` takes: the first that is not in use, or the end of the file.
  unfoldable pub slot_from : ℕ → ℕ → ℕ → S → Option ℕ
  slot_from zero dir ofs s = none
  slot_from (suc k) dir ofs s =
      let further = slot_from k dir (ofs + 1) s in
      elim (files.read dir ofs s) [
        | none ↦ some ofs
        | some e ↦ if not (e.in_use) then some ofs else further
      ]

  -- The entry for the parent directory in a directory that is added.
  unfoldable pub set_parent : ℕ → ℕ → Bool → S → Bool × S
  set_parent dir child is_dir s =
      if is_dir
      then files.write child 0 (record unset { inode_sector = dir; in_use = true }) s
      else (true, s)

  unfoldable pub add_entry : ℕ → ℕ → Str → ℕ → S → Option (Bool × S)
  add_entry fuel dir name sector s = elim (slot_from fuel dir 0 s) [
    | none ↦ none
    | some ofs ↦
        some (files.write dir ofs (record { inode_sector = sector; name = name; in_use = true }) s)
  ]

  unfoldable pub dir_add : ℕ → ℕ → Str → ℕ → Bool → S → Option (Bool × S)
  dir_add fuel dir name sector is_dir s =
      let (parent, s') = set_parent dir sector is_dir s in
      if null_string name || ltb name_max (length name)
      then some (false, s)
      else elim (lookup fuel dir name s) [
        | none ↦ none
        | some (some (e, ofs)) ↦ some (false, s)
        | some none ↦ if not parent then some (false, s') else add_entry fuel dir name sector s'
      ]

  -- Erasing the entry that was found, with the inode that it names.
  unfoldable pub erase : ℕ → DirEntry → ℕ → S → Bool × S
  erase dir e ofs s =
      let (ok, s') = files.write dir ofs (record e { in_use = false }) s in
      if ok then (true, files.remove e.inode_sector s') else (false, s')

  unfoldable pub dir_remove : ℕ → ℕ → Str → S → Option (Bool × S)
  dir_remove fuel dir name s = elim (lookup fuel dir name s) [
    | none ↦ none
    | some none ↦ some (false, s)
    | some (some (e, ofs)) ↦
        if files.is_directory e.inode_sector s
        then elim (dir_is_empty fuel e.inode_sector s) [
          | none ↦ none
          | some false ↦ some (false, s)
          | some true ↦ some (erase dir e ofs s)
        ]
        else some (erase dir e ofs s)
  ]

  -- `dir_readdir`, with the position behind: the name, or none at the end.
  unfoldable pub dir_readdir : ℕ → ℕ → ℕ → S → Option (Option Str × ℕ)
  dir_readdir zero dir position s = none
  dir_readdir (suc k) dir position s =
      let further = dir_readdir k dir (position + 1) s in
      elim (files.read dir position s) [
        | none ↦ some (none, position)
        | some e ↦ if e.in_use then some (some e.name, position + 1) else further
      ]
