-- ===== src/Fs/Writing/Apart.antt =====
-- Writing to one sector of a file whose sectors are apart from each other (a3/fs/inode.c).
use comp310_w.Prelude.{
  ℕ, ◌-◌, ◌*◌, ◌/◌, ◌%◌, ◌<◌, ltb, if◌then◌else◌, get_or, ◌≡◌, ◌≢◌, sym, ◌∙◌, ap, arith,
}
use comp310_w.Prelude.Update.{update, update_self, update_ne}
use comp310_w.Fs.Sectors.{Sectors}
use comp310_w.Fs.Inode.{no_sector, Inode}
use comp310_w.Fs.Inode.Index.{sector_of}
use comp310_w.Fs.Inode.Reading.{byte_at}
use comp310_w.Fs.Writing.{Layout}

module _ {S Sector : Type 0} (sectors : Sectors S Sector) (layout : Layout Sector)
    (inode : Inode) where
  abbrev sec : (ℕ → Sector) → ℕ → ℕ
  sec d i = sector_of sectors layout.words d inode.disk_inode i

  -- The sectors of the indices within the length of the file are different, and none of them is one
  -- of the file's indirect blocks.
  pub record Apart (d : ℕ → Sector) : Type 0 where
    pub distinct :
        (i j : ℕ)
        → i * 512 < inode.disk_inode.length
        → j * 512 < inode.disk_inode.length
        → sector_of sectors layout.words d inode.disk_inode i
          ≡ sector_of sectors layout.words d inode.disk_inode j
        → i ≡ j
    pub single :
        (i : ℕ)
        → i * 512 < inode.disk_inode.length
        → sector_of sectors layout.words d inode.disk_inode i ≢ inode.disk_inode.indirect_block
    pub double :
        (i : ℕ)
        → i * 512 < inode.disk_inode.length
        → sector_of sectors layout.words d inode.disk_inode i
          ≢ inode.disk_inode.doubly_indirect_block
    pub second :
        (i q : ℕ)
        → i * 512 < inode.disk_inode.length
        → sector_of sectors layout.words d inode.disk_inode i
          ≢ get_or (layout.words (d inode.disk_inode.doubly_indirect_block)) q 0

  module _ (d : ℕ → Sector) (a : Apart d) (i : ℕ) (within : i * 512 < inode.disk_inode.length)
      (v : Sector) where
    abbrev after : ℕ → Sector
    after = update d (sec d i) v

    double_same :
        after inode.disk_inode.doubly_indirect_block ≡ d inode.disk_inode.doubly_indirect_block
    double_same = update_ne d (sec d i) inode.disk_inode.doubly_indirect_block v (a.double i within)

    -- The sectors of the file are where they were.
    sector_of-update : (j : ℕ) → sec after j ≡ sec d j
    sector_of-update j =
        let e1 : after inode.disk_inode.indirect_block ≡ d inode.disk_inode.indirect_block =
          update_ne d (sec d i) inode.disk_inode.indirect_block v (a.single i within) in
        let q = (j - 251) / 128 in
        let y = get_or (layout.words (d inode.disk_inode.doubly_indirect_block)) q 0 in
        let e3 : after y ≡ d y = update_ne d (sec d i) y v (a.second i q within) in
        let entry = λ (one : Sector) (two : Sector).
          if ltb j 123
          then get_or inode.disk_inode.direct_blocks j 0
          else if ltb j 251
          then get_or (layout.words one) (j - 123) 0
          else if ltb j 16635
          then get_or (layout.words two) ((j - 251) % 128) 0
          else no_sector in
        ap
          (λ one.
            entry one
              (after (get_or (layout.words (after inode.disk_inode.doubly_indirect_block)) q 0)))
          e1
        ∙ ap (λ w. entry (d inode.disk_inode.indirect_block) (after (get_or (layout.words w) q 0)))
            double_same
        ∙ ap (entry (d inode.disk_inode.indirect_block)) e3

    pub Apart-update : Apart after
    Apart-update = record {
      distinct =
          λ j k hj hk e. a.distinct j k hj hk (sym (sector_of-update j) ∙ e ∙ sector_of-update k);
      single = λ j hj e. a.single j hj (sym (sector_of-update j) ∙ e);
      double = λ j hj e. a.double j hj (sym (sector_of-update j) ∙ e);
      second = λ j q hj e.
          a.second j q hj
            (sym (sector_of-update j) ∙ e ∙ ap (λ w. get_or (layout.words w) q 0) double_same);
    }

    -- A byte in the sector that was written, and any other of the file.
    pub byte_at-update_self :
        (p : ℕ)
        → p / 512 ≡ i
        → byte_at sectors layout.words layout.bytes after inode p
          ≡ get_or (layout.bytes v) (p % 512) 0
    byte_at-update_self p e =
        let here : after (sec after (p / 512)) ≡ v =
          ap (λ k. after k) (sector_of-update (p / 512) ∙ ap (sec d) e)
          ∙ update_self d (sec d i) v in
        ap (λ w. get_or (layout.bytes w) (p % 512) 0) here

    pub byte_at-update_ne :
        (p : ℕ)
        → p / 512 ≢ i
        → p < inode.disk_inode.length
        → byte_at sectors layout.words layout.bytes after inode p
          ≡ byte_at sectors layout.words layout.bytes d inode p
    byte_at-update_ne p ne h =
        let there : sec d i ≢ sec d (p / 512) =
          λ e. ne (sym (a.distinct i (p / 512) within (omega arith) e)) in
        let here : after (sec after (p / 512)) ≡ d (sec d (p / 512)) =
          ap (λ k. after k) (sector_of-update (p / 512))
          ∙ update_ne d (sec d i) (sec d (p / 512)) v there in
        ap (λ w. get_or (layout.bytes w) (p % 512) 0) here
