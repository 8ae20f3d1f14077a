-- ===== src/Fs/Tests/Naming.antt =====
-- The theorems about directories, on entries in a table, and about paths.
use comp310_w.Prelude.{
  ℕ, ◌≡◌, ◌≢◌, refl, ◌==◌, if◌then◌else◌, Bool, false, true, some, List, [], ◌∷◌, ◌++◌, Str, arith,
  codes, str_eq,
}
use comp310_w.Fs.Directory.{
  DirEntry, Files, lookup, lookup_from, slot_from, set_parent, add_entry, dir_add,
}
use comp310_w.Fs.Path.{IsPart, AllParts, split_path_filename, joined, split_path_filename-joined}
use comp310_w.Fs.Directory.Entries.{entry_files, read_entry, write_entry, Whole, lookup-dir_add}
use comp310_w.Prelude.{suc, ◌*◌, ◌/◌, ◌<◌, sym, ap, ◌∙◌, length, get_or, get_or-replicate}
use comp310_w.Prelude.Ranges.{range, take, drop, length-range}
use comp310_w.Prelude.Stream.{c_string}
use comp310_w.Fs.Inode.{Inode, inode_read_at, read_loop, byte_to_sector, index_to_sector}
use comp310_w.Fs.Writing.{inode_write_at, finish, prepare, write_loop}
use comp310_w.Prelude.Int.{pred_int}
use comp310_w.Fs.Directory.Adding.{entry_of}
use comp310_w.Fs.Inode.Index.{sector_of}
use comp310_w.Fs.Tests.Growing.{State, sectors, space, layout, bytes-of_bytes, words-zeros}

-- An entry in 36 numbers: the sector, whether it is in use, and the name with zeros behind it.
abbrev encode : DirEntry → List ℕ
encode e = e.inode_sector ∷ (if e.in_use then 1 else 0) ∷ range (λ i. get_or e.name i 0) 0 34

abbrev decode : List ℕ → DirEntry
decode l = record {
  inode_sector = get_or l 0 0;
  name = c_string (drop 2 l);
  in_use = get_or l 1 0 == 1;
}

length-encode : (e : DirEntry) → length (encode e) ≡ 36
length-encode e = ap (λ n. suc (suc n)) (length-range (λ i. get_or e.name i 0) 0 34)

abbrev entry : ℕ → Bool → DirEntry
entry x on = record { inode_sector = x; name = codes "old"; in_use = on }

-- The sector 5 holds the parent, a file, and a free entry.
abbrev contents : List ℕ
contents = encode (entry 1 true) ++ encode (entry 4 true) ++ encode (entry 5 false)

abbrev start : State
start = ((λ x i. if x == 5 then get_or contents i 0 else 0), 30)

abbrev inode : Inode
inode = record {
  sector = 1;
  open_cnt = 1;
  removed = false;
  deny_write_cnt = 0;
  disk_inode = record {
    direct_blocks = 5 ∷ [];
    indirect_block = 0;
    doubly_indirect_block = 0;
    is_dir = true;
    length = 108;
    magic = 0;
  };
}

abbrev no_directory : ℕ → Inode × State → Bool
no_directory x st = false

abbrev keep : ℕ → Inode × State → Inode × State
keep x st = st

abbrev files : Files (Inode × State)
files = entry_files space layout encode decode no_directory keep

sec-five : (i : ℕ) → i * 512 < 108 → sector_of sectors layout.words (start.0) inode.disk_inode i ≡ 5
sec-five i h = let e : i ≡ 0 = omega arith in rw e refl

no_entry : (q : ℕ) → get_or (layout.words (start.0 0)) q 0 ≡ 0
no_entry q = ap (λ l. get_or l q 0) words-zeros ∙ get_or-replicate 128 q 0

inode-Whole : Whole space layout encode decode no_directory keep 3 inode (start.0)
inode-Whole = record {
  allowed = refl;
  size = refl;
  present = λ p h e. absurd (omega (arith, sym (sec-five (p / 512) (omega arith)) ∙ e));
  apart = record {
    distinct = λ i j hi hj e. omega arith;
    single = λ i hi e. absurd (omega (arith, sym (sec-five i hi) ∙ e));
    double = λ i hi e. absurd (omega (arith, sym (sec-five i hi) ∙ e));
    second = λ i q hi e. absurd (omega (arith, sym (sec-five i hi) ∙ e ∙ no_entry q));
  };
}

added :
    (st : Inode × State) × (dir_add files (entry 0 false) 9 1 (codes "new") 7 false (inode, start)
      ≡ some (true, st))
unfolding dir_add lookup lookup_from slot_from set_parent add_entry str_eq read_entry inode_read_at
    read_loop take drop range byte_to_sector index_to_sector c_string write_entry inode_write_at
    finish prepare pred_int write_loop
added = (_, refl)

new_coded : decode (encode (entry_of 7 (codes "new"))) ≡ entry_of 7 (codes "new")
unfolding c_string drop range
new_coded = refl

entries_there :
    (read_entry space layout encode decode no_directory keep 0 (inode, start) ≡ some (entry 1 true))
    × (read_entry space layout encode decode no_directory keep 2 (inode, start)
        ≡ some (entry 5 false))
unfolding read_entry inode_read_at read_loop take drop range byte_to_sector index_to_sector c_string
entries_there = (refl, refl)

abbrev parts : List Str
parts = codes "usr" ∷ codes "bin" ∷ []

other : (c : ℕ) → (c == 47) ≡ false → c ≢ 47
other c h e = absurd (ground (arith, e))

parts-AllParts : AllParts parts
parts-AllParts = (
  record { filled = refl; plain = (other _ refl, (other _ refl, (other _ refl, tt))) },
  (record { filled = refl; plain = (other _ refl, (other _ refl, (other _ refl, tt))) }, tt),
)

sh-IsPart : IsPart (codes "sh")
sh-IsPart = record { filled = refl; plain = (other _ refl, (other _ refl, tt)) }

split_path_filename-joined_example :
    (split_path_filename (joined parts ++ codes "sh") ≡ (joined parts, codes "sh"))
    × (split_path_filename (47 ∷ (joined parts ++ codes "sh")) ≡ (47 ∷ joined parts, codes "sh"))
split_path_filename-joined_example =
    split_path_filename-joined parts (codes "sh") parts-AllParts sh-IsPart

lookup-dir_add_example :
    (i : ℕ) × (lookup files (entry 0 false) 9 1 (codes "new") (added.0)
      ≡ some (some (record { inode_sector = 7; name = codes "new"; in_use = true }, i)))
lookup-dir_add_example =
    lookup-dir_add space layout encode decode no_directory keep bytes-of_bytes
      (λ v. length-range v 0 512) length-encode (entry 0 false) 9 (codes "new") 7 inode 3 2 start
      (added.0) (entry 1 true) (entry 5 false) inode-Whole new_coded (entries_there.0) refl
      (omega arith) (entries_there.1) refl (added.1)
