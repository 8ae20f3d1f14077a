-- ===== src/Fs/File/Tests.antt =====
-- Two open files on inodes that only count the bytes written to them.
use comp310_w.Prelude.{
  true, false, none, some, [], ◌∷◌, ℕ, ◌+◌, Str, codes, str_eq, ◌≡◌, ◌≢◌, refl, length,
}
use comp310_w.Prelude.Int.{pos, negsuc}
use comp310_w.Fs.File.{Table, Inodes, File, find, file_write, remove_from_file_table}
use comp310_w.Fs.File.Entries.{Once, remove_from_file_table-find}
use comp310_w.Fs.File.Positions.{with_nuls, file_write-twice}

abbrev counting : Inodes ℕ
counting = record {
  read_at = λ i n ofs s. ([], s);
  write_at = λ i bytes ofs s. (length bytes, s + length bytes);
  length_of = λ i s. s;
  deny = λ i s. s;
  allow = λ i s. s;
  close = λ i s. s;
}

-- The inodes refuse to write.
abbrev refusing : Inodes ℕ
refusing = record counting { write_at = λ i bytes ofs s. (0, s) }

abbrev start : File
start = record { inode = 7; pos = pos 0; deny_write = false }

abbrev table : Table ℕ
table = record { entries = (codes "f", 1) ∷ (codes "g", 2) ∷ []; files = λ p. start; inodes = 0 }

table-Once : Once table.entries
unfolding find str_eq
table-Once = (refl, (refl, tt))

-- A write that is refused moves the position from 0 to -2.
refused : ((file_write refusing 1 (codes "a") table).1.files 1).pos ≡ negsuc 1
unfolding file_write
refused = refl

found_f : find (codes "f") table.entries ≡ some 1
unfolding find str_eq
found_f = refl

remove_from_file_table-find_example :
    (t' : Table ℕ) × (remove_from_file_table counting (codes "f") table ≡ (true, t'))
    × (find (codes "f") t'.entries ≡ none)
    × ((g : Str) → g ≢ codes "f" → find g t'.entries ≡ find g table.entries)
    × Once t'.entries
remove_from_file_table-find_example =
    remove_from_file_table-find counting (codes "f") 1 table table-Once found_f

file_write-twice_example :
    (t' : Table ℕ) × (file_write counting 1
        (with_nuls (codes "cd"))
        ((file_write counting 1 (with_nuls (codes "ab")) table).1)
      ≡ (4, t'))
    × (t'.inodes ≡ 8)
    × ((t'.files 1).pos ≡ pos 4)
file_write-twice_example =
    file_write-twice counting 1 (codes "ab") (codes "cd") 0 table 4 8 refl refl refl
