-- ===== src/Fs/Inode/Chunks.antt =====
-- One round of the loops of inode_read_at and inode_write_at (a3/fs/inode.c).
use comp310_w.Prelude.{ℕ, ◌+◌, ◌-◌, ◌/◌, ◌%◌, ◌≤◌, ◌<◌, ◌==◌, false, ◌≡◌, arith}
use comp310_w.Fs.Inode.{Inode, lesser, chunk_size}

-- A round of the loop stays in one sector.
pub sector_same : (p k : ℕ) → p % 512 + k < 512 → (p + k) / 512 ≡ p / 512
sector_same p k h = omega arith

pub sector_offset : (p k : ℕ) → p % 512 + k < 512 → (p + k) % 512 ≡ p % 512 + k
sector_offset p k h = omega arith

module _ (inode : Inode) where
  -- How many bytes are left to move.
  abbrev pub rest : ℕ → ℕ → ℕ
  rest size offset = lesser size (inode.disk_inode.length - offset)

  -- The arithmetic of one round.
  pub record Round (size offset c : ℕ) : Type 0 where
    pub inside : offset < inode.disk_inode.length
    pub fits : offset % 512 + c ≤ 512
    pub less : size - c < size
    pub whole : c + rest (size - c) (offset + c) ≡ rest size offset

  pub chunk_size-Round :
      (size offset : ℕ)
      → (size == 0) ≡ false
      → (chunk_size inode size offset == 0) ≡ false
      → Round size offset (chunk_size inode size offset)
  chunk_size-Round size offset h h2 = record {
    inside = ground arith;
    fits = ground arith;
    less = ground arith;
    whole = ground arith;
  }
