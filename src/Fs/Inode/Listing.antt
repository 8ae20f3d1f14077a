-- ===== src/Fs/Inode/Listing.antt =====
-- The list of the sectors of a file (get_inode_data_sectors of a3/fs/inode.c).
use mathlib.Core.List.{append_assoc, append-nil}
use comp310_w.Prelude.{
  ℕ, zero, suc, ◌+◌, ◌-◌, ◌*◌, ◌/◌, ◌%◌, ◌≤◌, ltb, List, ◌++◌, get_or, ◌≡◌, refl, sym, ◌∙◌, ap, inl,
  inr, Bool-cases, arith,
}
use comp310_w.Prelude.Ranges.{range, range-append, range-congr}
use comp310_w.Fs.Sectors.{Sectors}
use comp310_w.Fs.Inode.{
  InodeDisk, bytes_to_sectors, index_to_sector, second_level, single_level, double_level,
  get_inode_data_sectors, lesser,
}
use comp310_w.Fs.Inode.Index.{
  sector_of, double_of, read-again, index_to_sector-sector_of, sector_of_direct, sector_of_single,
  sector_of_double,
}

module _ {S Sector : Type 0} (sectors : Sectors S Sector) (words : Sector → List ℕ) where
  range-block :
      (g : ℕ → ℕ) (i num : ℕ)
      → range g (i * 128) num
        ≡ range g (i * 128) (lesser num 128) ++ range g ((i + 1) * 128) (num - lesser num 128)
  range-block g i num =
      let sub = lesser num 128 in
      let whole : sub + (num - sub) ≡ num = ground arith in
      let moved : range g (i * 128 + sub) (num - sub) ≡ range g ((i + 1) * 128) (num - sub) =
        range-congr g g (i * 128 + sub) ((i + 1) * 128) (num - sub) (λ k b.
          let full : sub ≡ 128 = ground arith in
          let e : i * 128 + sub + k ≡ (i + 1) * 128 + k = omega (arith, full) in ap g e) in
      ap (range g (i * 128)) (sym whole)
      ∙ range-append g (i * 128) sub (num - sub)
      ∙ ap (λ l. range g (i * 128) sub ++ l) moved

  second_level-range :
      (n i num : ℕ) (first result : List ℕ) (s s0 : S)
      → num ≤ n * 128
      → sectors.disk s ≡ sectors.disk s0
      → ((second_level sectors words n i num first result s).0
          ≡ result ++ range (double_of sectors words (sectors.disk s0) first) (i * 128) num)
        × (sectors.disk ((second_level sectors words n i num first result s).1) ≡ sectors.disk s0)
  unfolding second_level range
  second_level-range zero i num first result s s0 h same =
      (let none_left : num ≡ 0 = omega arith in sym (append-nil result) ∙ rw none_left refl, same)
  second_level-range (suc n) i num first result s s0 h same =
      let sub = lesser num 128 in
      let g = double_of sectors words (sectors.disk s0) first in
      let (value, same') = read-again sectors words (get_or first i 0) s0 s same in
      let block = sectors.read (get_or first i 0) s in
      let entries = range (λ j. get_or (words (block.0)) j 0) 0 sub in
      let (rest, same2) =
        second_level-range n (i + 1) (num - sub) first (result ++ entries) (block.1) s0
          (ground arith) same' in
      let here : entries ≡ range g (i * 128) sub =
        range-congr (λ j. get_or (words (block.0)) j 0) g 0 (i * 128) sub
          (λ k b.
            let e0 : 0 + k ≡ k = omega arith in
            let e1 : (i * 128 + k) / 128 ≡ i = ground arith in
            let e2 : (i * 128 + k) % 128 ≡ k = ground arith in rw (e0, e1, e2, value) refl) in
      (
        rest
            ∙ append_assoc result entries (range g ((i + 1) * 128) (num - sub))
            ∙ ap (λ l. result ++ l)
                (ap (λ l. l ++ range g ((i + 1) * 128) (num - sub)) here
                  ∙ sym (range-block g i num)),
        same2,
      )

  module _ (idisk : InodeDisk) (l : ℕ) (result : List ℕ) (s s0 : S)
      (same : sectors.disk s ≡ sectors.disk s0) where
    single_level-range :
        ((single_level sectors words idisk l result s).0
          ≡ result ++ range (λ k. get_or (words (sectors.disk s0 idisk.indirect_block)) k 0) 0 l)
        × (sectors.disk ((single_level sectors words idisk l result s).1) ≡ sectors.disk s0)
    unfolding single_level range
    single_level-range = elim (Bool-cases (ltb 0 l)) [
      | inl e ↦
          let (value, same') = read-again sectors words idisk.indirect_block s0 s same in
          rw e (ap (λ v. result ++ range (λ k. get_or (words v) k 0) 0 l) value, same')
      | inr e ↦
          let none_left : l ≡ 0 = ground arith in rw (e, none_left) (sym (append-nil result), same)
    ]

    double_level-range :
        ((double_level sectors words idisk l result s).0
          ≡ result
            ++ range
                (double_of sectors words
                  (sectors.disk s0)
                  (words (sectors.disk s0 idisk.doubly_indirect_block)))
                0
                l)
        × (sectors.disk ((double_level sectors words idisk l result s).1) ≡ sectors.disk s0)
    unfolding double_level range
    double_level-range = elim (Bool-cases (ltb 0 l)) [
      | inl e ↦
          let (value, same') = read-again sectors words idisk.doubly_indirect_block s0 s same in
          let block = sectors.read idisk.doubly_indirect_block s in
          let (entries, same2) =
            second_level-range ((l + 128 - 1) / 128) 0 l (words (block.0)) result (block.1) s0
              (omega arith) same' in
          rw e (
            entries
                ∙ ap
                    (λ v. result ++ range (double_of sectors words (sectors.disk s0) (words v)) 0 l)
                    value,
            same2,
          )
      | inr e ↦
          let none_left : l ≡ 0 = ground arith in rw (e, none_left) (sym (append-nil result), same)
    ]

  -- The sectors that a file lists: those of its indices, in their order, if it is not too long for
  -- one doubly indirect block; the disk stays as it is.
  pub get_inode_data_sectors-index :
      (idisk : InodeDisk) (s : S)
      → bytes_to_sectors idisk.length ≤ 16635
      → ((get_inode_data_sectors sectors words idisk s).0
          ≡ range
              (λ i. (index_to_sector sectors words idisk i s).0)
              0
              (bytes_to_sectors idisk.length))
        × (sectors.disk ((get_inode_data_sectors sectors words idisk s).1) ≡ sectors.disk s)
  unfolding get_inode_data_sectors
  get_inode_data_sectors-index idisk s room =
      let n = bytes_to_sectors idisk.length in
      let l1 = lesser n 123 in
      let l2 = lesser (n - l1) 128 in
      let l3 = lesser (n - l1 - l2) 16384 in
      let d = sectors.disk s in
      let f = sector_of sectors words d idisk in
      let direct : range (λ i. get_or idisk.direct_blocks i 0) 0 l1 ≡ range f 0 l1 =
        range-congr _ f 0 0 l1 (λ k b.
          let e : 0 + k ≡ k = omega arith in
          rw e (sym (sector_of_direct sectors words d idisk k (ground arith)))) in
      let single : range (λ k. get_or (words (d idisk.indirect_block)) k 0) 0 l2 ≡ range f l1 l2 =
        range-congr _ f 0 l1 l2 (λ k b.
          let e : 0 + k ≡ k = omega arith in
          let full : l1 ≡ 123 = ground arith in
          rw (e, full) (sym (sector_of_single sectors words d idisk k (ground arith)))) in
      let double : range (double_of sectors words d (words (d idisk.doubly_indirect_block))) 0 l3
          ≡ range f (l1 + l2) l3 =
        range-congr _ f 0 (l1 + l2) l3 (λ k b.
          let e : 0 + k ≡ k = omega arith in
          let full : l1 + l2 ≡ 251 = ground arith in
          rw (e, full) (sym (sector_of_double sectors words d idisk k (ground arith)))) in
      let whole : l1 + (l2 + l3) ≡ n = ground arith in
      let s2 =
        single_level sectors words idisk l2 (range (λ i. get_or idisk.direct_blocks i 0) 0 l1) s in
      let (e2, same2) =
        single_level-range idisk l2 (range (λ i. get_or idisk.direct_blocks i 0) 0 l1) s s refl in
      let (e3, same3) = double_level-range idisk l3 (s2.0) (s2.1) s same2 in
      let start : 0 + l1 ≡ l1 = omega arith in
      let total : range f 0 n ≡ range f 0 l1 ++ (range f l1 l2 ++ range f (l1 + l2) l3) =
        ap (range f 0) (sym whole)
        ∙ range-append f 0 l1 (l2 + l3)
        ∙ ap (λ k. range f 0 l1 ++ range f k (l2 + l3)) start
        ∙ ap (λ l. range f 0 l1 ++ l) (range-append f l1 l2 l3) in
      (
        e3
            ∙ rw (e2, direct, single, double) (append_assoc (range f 0 l1) _ _)
            ∙ sym total
            ∙ range-congr f _ 0 0 n
                (λ k b. sym ((index_to_sector-sector_of sectors words idisk (0 + k) s).0)),
        same3,
      )
