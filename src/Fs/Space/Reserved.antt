-- ===== src/Fs/Space/Reserved.antt =====
-- What a file has after inode_reserve of a3/fs/inode.c returned true.
use native.Mathlib.Decide.{ℕ_discrete}
use mathlib.Core.Bool.{false≢true}
use mathlib.Core.Path.{subst}
use comp310_w.Prelude.{
  ℕ, zero, suc, ◌+◌, ◌-◌, ◌≤◌, ◌<◌, ◌==◌, Bool, true, false, some, List, get_or, set, length,
  get_or-set_self, get_or-set_ne, length-set, ◌≡◌, ◌≢◌, refl, sym, ◌∙◌, ap, inl, inr, Bool-cases,
  Option-cases, if_true, if_false, arith,
}
use comp310_w.Fs.Inode.{InodeDisk, bytes_to_sectors, lesser}
use comp310_w.Fs.Space.{
  Space, reserve_sector, reserve_entries, reserve_direct, reserve_single, reserve_double,
  inode_reserve,
}

-- The entries from `i` on, `n` of them, have sectors, and no entry that had one was changed.
pub record Filled (i n : ℕ) (before after : List ℕ) : Type 0 where
  pub present : (j : ℕ) → i ≤ j → j < i + n → get_or after j 0 ≢ 0
  pub kept : (j : ℕ) → get_or before j 0 ≢ 0 → get_or after j 0 ≡ get_or before j 0

module _ {S Sector : Type 0} (space : Space S Sector) (words : Sector → List ℕ)
    (of_words : List ℕ → Sector) (zeros : Sector)
    -- The sector 0 is never handed out.
    (positive : (s : S) → (space.allocate s).0 ≢ some 0) where
  -- An entry that is there stays.
  reserve_sector-kept :
      (entry : ℕ) (s : S)
      → entry ≢ 0
      → reserve_sector space words of_words zeros entry s ≡ (true, entry, s)
  unfolding reserve_sector
  reserve_sector-kept entry s h =
      let there : (entry == 0) ≡ false = ground arith in if_false _ _ there

  reserve_sector-positive :
      (entry : ℕ) (s : S)
      → (reserve_sector space words of_words zeros entry s).0 ≡ true
      → (reserve_sector space words of_words zeros entry s).1 ≢ 0
  unfolding reserve_sector
  reserve_sector-positive entry s h = elim (Bool-cases (entry == 0)) [
    | inr e ↦ let there : entry ≢ 0 = ground arith in rw e there
    | inl e ↦ elim (Option-cases ((space.allocate s).0)) [
      | inl n ↦ absurd (false≢true (sym (rw (e, n) refl) ∙ h))
      | inr (x, y) ↦ rw (e, y) (λ zero_sector. positive s (y ∙ ap some zero_sector))
    ]
  ]

  abbrev level_0 : ℕ → ℕ → S → Bool × ℕ × S
  level_0 _ entry s = reserve_sector space words of_words zeros entry s

  abbrev fill : ℕ → ℕ → ℕ → List ℕ → S → Bool × List ℕ × S
  fill n i num blocks s = reserve_entries space words of_words zeros level_0 1 n i num blocks s

  fill-Filled :
      (n i num : ℕ) (blocks : List ℕ) (s : S)
      → (fill n i num blocks s).0 ≡ true
      → i + n ≤ length blocks
      → Filled i n blocks ((fill n i num blocks s).1)
  unfolding reserve_entries
  fill-Filled zero i num blocks s h room = record {
    present = λ j low high. absurd (omega arith);
    kept = λ j there. refl;
  }
  fill-Filled (suc n) i num blocks s h room =
      let r = reserve_sector space words of_words zeros (get_or blocks i 0) s in
      let blocks' = set blocks i (r.1) in
      elim (Bool-cases (r.0)) [
        | inr e ↦ absurd (false≢true (sym (rw e refl) ∙ h))
        | inl e ↦
            let done : fill (suc n) i num blocks s
                ≡ fill n (i + 1) (num - lesser num 1) blocks' (r.2) =
              if_true _ _ e in
            let f =
              fill-Filled n (i + 1) (num - lesser num 1) blocks' (r.2)
                (sym (ap (λ x. x.0) done) ∙ h) (omega (arith, length-set blocks i (r.1))) in
            let self : get_or blocks' i 0 ≡ r.1 = get_or-set_self blocks i (r.1) 0 (omega arith) in
            let new : r.1 ≢ 0 = reserve_sector-positive (get_or blocks i 0) s e in
            rw done (record {
              present = λ j low high. elim (ℕ_discrete j i) [
                | yes same ↦
                    rw same (λ z. new (sym self ∙ sym (f.kept i (λ y. new (sym self ∙ y))) ∙ z))
                | no ne ↦ f.present j (omega (arith, ne)) (omega arith)
              ];
              kept = λ j there. elim (ℕ_discrete j i) [
                | yes same ↦
                    let there' : get_or blocks i 0 ≢ 0 =
                      λ z. there (ap (λ k. get_or blocks k 0) same ∙ z) in
                    let old : r.1 ≡ get_or blocks i 0 =
                      ap (λ x. x.1) (reserve_sector-kept (get_or blocks i 0) s there') in
                    rw same (f.kept i (λ y. new (sym self ∙ y)) ∙ self ∙ old)
                | no ne ↦
                    let apart : get_or blocks' j 0 ≡ get_or blocks j 0 =
                      get_or-set_ne blocks i j (r.1) 0 (λ q. ne (sym q)) in
                    f.kept j (λ y. there (sym apart ∙ y)) ∙ apart
              ];
            })
      ]

  -- The later steps leave the direct blocks as they are.
  inode_reserve-reserve_direct :
      (idisk : InodeDisk) (size : ℕ) (s : S)
      → (inode_reserve space words of_words zeros idisk size s).1.direct_blocks
        ≡ (reserve_direct space words of_words zeros
            (lesser (bytes_to_sectors size) 123)
            idisk
            s).1.direct_blocks
  unfolding inode_reserve reserve_single reserve_double
  inode_reserve-reserve_direct idisk size s =
      let n = bytes_to_sectors size in
      let l1 = lesser n 123 in
      let l2 = lesser (n - l1) 128 in
      let l3 = lesser (n - l1 - l2) 16384 in
      let first = reserve_direct space words of_words zeros l1 idisk s in
      let second = reserve_single space words of_words zeros l2 (first.1) (first.2) in
      let third = reserve_double space words of_words zeros l3 (second.1) (second.2) in
      elim (Bool-cases (first.0)) [
        | inr e ↦ rw e refl
        | inl e ↦ elim (Bool-cases (n - l1 == 0)) [
          | inl e1 ↦ rw (e, e1) refl
          | inr e1 ↦ elim (Bool-cases (second.0)) [
            | inr e2 ↦ rw (e, e1, e2) refl
            | inl e2 ↦ elim (Bool-cases (n - l1 - l2 == 0)) [
              | inl e3 ↦ rw (e, e1, e2, e3) refl
              | inr e3 ↦ elim (Bool-cases (third.0)) [
                | inl e4 ↦ rw (e, e1, e2, e3, e4) refl
                | inr e4 ↦ rw (e, e1, e2, e3, e4) refl
              ]
            ]
          ]
        ]
      ]

  -- If `inode_reserve` returns true, each index of the file that has a direct block has a sector
  -- there, and every direct block that had a sector before has the same one. The array of direct
  -- blocks has its 123 entries, and the free map never hands out the sector 0.
  pub inode_reserve-Filled :
      (idisk : InodeDisk) (size : ℕ) (s : S)
      → length idisk.direct_blocks ≡ 123
      → (inode_reserve space words of_words zeros idisk size s).0 ≡ true
      → Filled 0
          (lesser (bytes_to_sectors size) 123)
          idisk.direct_blocks
          ((inode_reserve space words of_words zeros idisk size s).1.direct_blocks)
  unfolding inode_reserve reserve_direct
  inode_reserve-Filled idisk size s full h =
      let l = lesser (bytes_to_sectors size) 123 in
      let first = reserve_direct space words of_words zeros l idisk s in
      elim (Bool-cases (first.0)) [
        | inr e ↦ absurd (false≢true (sym (rw e refl) ∙ h))
        | inl e ↦
            subst (Filled 0 l idisk.direct_blocks) (sym (inode_reserve-reserve_direct idisk size s))
              (fill-Filled l 0 l idisk.direct_blocks s e (ground (arith, full)))
      ]
