-- ===== src/Fs/Writing/Bytes.antt =====
-- The bytes of a file after inode_write_at (a3/fs/inode.c).
use native.Mathlib.Decide.{ℕ_discrete}
use comp310_w.Prelude.{
  ℕ, ◌+◌, ◌-◌, ◌/◌, ◌%◌, ◌≤◌, ◌<◌, leb, ltb, if◌then◌else◌, ◌&&◌, true, false, List, get_or, length,
  ◌≡◌, sym, ◌∙◌, ap, inl, inr, Bool-cases, if_true, if_false, arith,
}
use comp310_w.Prelude.Update.{update}
use comp310_w.Fs.Sectors.{Sectors}
use comp310_w.Fs.Inode.{Inode}
use comp310_w.Fs.Inode.Index.{sector_of}
use comp310_w.Fs.Inode.Reading.{byte_at}
use comp310_w.Fs.Writing.{Layout, new_sector}
use comp310_w.Fs.Writing.Round.{new_sector-byte}
use comp310_w.Fs.Writing.Apart.{Apart, byte_at-update_self, byte_at-update_ne}

-- The bytes `f` with `n` bytes of the buffer, from `w` on, put at `offset`.
abbrev pub overlay : List ℕ → ℕ → ℕ → ℕ → (ℕ → ℕ) → ℕ → ℕ
overlay buffer w offset n f p =
    if leb offset p && ltb p (offset + n) then get_or buffer (w + (p - offset)) 0 else f p

-- Two pieces that follow each other are one.
pub overlay-overlay :
    (buffer : List ℕ) (w offset c n m : ℕ) (f g : ℕ → ℕ) (p : ℕ)
    → c + n ≡ m
    → g p ≡ overlay buffer w offset c f p
    → overlay buffer (w + c) (offset + c) n g p ≡ overlay buffer w offset m f p
overlay-overlay buffer w offset c n m f g p h e =
    elim (Bool-cases (leb (offset + c) p && ltb p (offset + c + n))) [
      | inl late ↦
          let whole : (leb offset p && ltb p (offset + m)) ≡ true = ground (arith, h) in
          let place : w + c + (p - (offset + c)) ≡ w + (p - offset) = ground arith in
          if_true _ _ late ∙ ap (λ k. get_or buffer k 0) place ∙ sym (if_true _ _ whole)
      | inr early ↦ elim (Bool-cases (leb offset p && ltb p (offset + c))) [
        | inl in_first ↦
            let whole : (leb offset p && ltb p (offset + m)) ≡ true = ground (arith, h) in
            if_false _ _ early ∙ e ∙ if_true _ _ in_first ∙ sym (if_true _ _ whole)
        | inr in_none ↦
            let whole : (leb offset p && ltb p (offset + m)) ≡ false = ground (arith, h) in
            if_false _ _ early ∙ e ∙ if_false _ _ in_none ∙ sym (if_false _ _ whole)
      ]
    ]

same_sector :
    (offset c p : ℕ) → offset % 512 + c ≤ 512 → offset ≤ p → p < offset + c → p / 512 ≡ offset / 512
same_sector offset c p fits low high = omega arith

-- The difference of two positions in one sector.
same_distance : (offset p : ℕ) → p / 512 ≡ offset / 512 → p + offset % 512 ≡ offset + p % 512
same_distance offset p e = omega (arith, e)

module _ {S Sector : Type 0} (sectors : Sectors S Sector) (layout : Layout Sector)
    (bytes-of_bytes : (l : List ℕ) → length l ≡ 512 → layout.bytes (layout.of_bytes l) ≡ l)
    (inode : Inode) (buffer : List ℕ) where
  abbrev content : (ℕ → Sector) → ℕ → ℕ
  content d p = byte_at sectors layout.words layout.bytes d inode p

  abbrev sec : (ℕ → Sector) → ℕ → ℕ
  sec d i = sector_of sectors layout.words d inode.disk_inode i

  -- The disk after one round, and the bytes of the file there.
  module _ (d : ℕ → Sector) (a : Apart sectors layout inode d) (offset c w : ℕ)
      (inside : offset < inode.disk_inode.length) (fits : offset % 512 + c ≤ 512) where
    abbrev new : Sector
    new = new_sector sectors layout (offset % 512) c buffer w (d (sec d (offset / 512)))

    abbrev written : ℕ → Sector
    written = update d (sec d (offset / 512)) new

    overlaid :
        (p : ℕ)
        → p / 512 ≡ offset / 512
        → (if leb (offset % 512) (p % 512) && ltb (p % 512) (offset % 512 + c)
            then get_or buffer (w + (p % 512 - offset % 512)) 0
            else get_or (layout.bytes (d (sec d (offset / 512)))) (p % 512) 0)
          ≡ overlay buffer w offset c (content d) p
    overlaid p e =
        let near = same_distance offset p e in
        elim (Bool-cases (leb (offset % 512) (p % 512) && ltb (p % 512) (offset % 512 + c))) [
          | inl t ↦
              let t2 : (leb offset p && ltb p (offset + c)) ≡ true = ground (arith, near) in
              let place : w + (p % 512 - offset % 512) ≡ w + (p - offset) = omega (arith, near) in
              if_true _ _ t ∙ ap (λ k. get_or buffer k 0) place ∙ sym (if_true _ _ t2)
          | inr t ↦
              let t2 : (leb offset p && ltb p (offset + c)) ≡ false = ground (arith, near) in
              if_false _ _ t
              ∙ ap (λ k. get_or (layout.bytes (d (sec d k))) (p % 512) 0) (sym e)
              ∙ sym (if_false _ _ t2)
        ]

    pub written-overlay :
        (p : ℕ)
        → p < inode.disk_inode.length
        → content written p ≡ overlay buffer w offset c (content d) p
    written-overlay p h = elim (ℕ_discrete (p / 512) (offset / 512)) [
      | no ne ↦
          let out : (leb offset p && ltb p (offset + c)) ≡ false =
            ground (arith, same_sector offset c p fits, ne) in
          byte_at-update_ne sectors layout inode d a (offset / 512) (omega arith) new p ne h
          ∙ sym (if_false _ _ out)
      | yes e ↦
          byte_at-update_self sectors layout inode d a (offset / 512) (omega arith) new p e
          ∙ new_sector-byte sectors layout bytes-of_bytes (offset % 512) c buffer w
              (d (sec d (offset / 512))) (p % 512) fits (omega arith)
          ∙ overlaid p e
    ]
