-- ===== src/Fs/File/Positions.antt =====
-- The position of a file after writes (a3/fs/file.c).
use comp310_w.Prelude.{
  true, [], ◌∷◌, ◌++◌, ℕ, suc, ◌+◌, ◌-◌, leb, Str, ◌≡◌, refl, ◌∙◌, ap, if_true, arith, length,
  length-append, set,
}
use comp310_w.Prelude.Int.{pos}
use comp310_w.Prelude.Update.{update, update_self}
use comp310_w.Fs.File.{Table, Inodes, File, add_int, sub_int, file_write}

-- A text and the two NULs that the command `write` puts behind it.
abbrev pub with_nuls : Str → Str
with_nuls a = a ++ 0 ∷ 0 ∷ []

set-with_nuls : (a : Str) → set (with_nuls a) (length (with_nuls a) - 1) 0 ≡ with_nuls a
set-with_nuls a =
    let at_last : length (with_nuls a) - 1 ≡ length a + 1 =
      omega (arith, length-append a (0 ∷ 0 ∷ [])) in
    ap (λ n. set (with_nuls a) n 0) at_last ∙ go a
  where
    go : (a : Str) → set (with_nuls a) (length a + 1) 0 ≡ with_nuls a
    go [] = refl
    go (x ∷ a) =
        let e : suc (length a) + 1 ≡ suc (length a + 1) = omega arith in
        ap (λ n. set (x ∷ with_nuls a) n 0) e ∙ ap (λ l. x ∷ l) (go a)

back_two : (n k : ℕ) → sub_int (add_int (pos n) (k + 2)) 2 ≡ pos (n + k)
back_two n k =
    let more : leb 2 (n + (k + 2)) ≡ true = ground arith in if_true _ _ more ∙ ap pos (omega arith)

module _ {S : Type 0} (inodes : Inodes S) where
  -- A write of a text with two NULs behind it that writes all of it.
  file_write-text :
      (f : ℕ) (a : Str) (n : ℕ) (t : Table S) (s : S)
      → (t.files f).pos ≡ pos n
      → inodes.write_at (t.files f).inode (with_nuls a) (pos n) t.inodes ≡ (length a + 2, s)
      → file_write inodes f (with_nuls a) t ≡ (
        length a + 2,
        record t {
          files = update t.files f (record (t.files f) { pos = pos (n + length a) });
          inodes = s;
        },
      )
  unfolding file_write
  file_write-text f a n t s at_n wrote =
      rw (set-with_nuls a, at_n, wrote, back_two n (length a)) refl

  -- If the position of a file is `n`, and `inode_write_at` writes all bytes of two texts, each with two
  -- NULs behind it, the first at `n` and the second where the first text ends, then two calls of
  -- `file_write` make just these two writes, so that the second text stands behind the first in place of
  -- its NULs, and the position is where the second text ends.
  pub file_write-twice :
      (f : ℕ) (a b : Str) (n : ℕ) (t : Table S) (s s' : S)
      → (t.files f).pos ≡ pos n
      → inodes.write_at (t.files f).inode (with_nuls a) (pos n) t.inodes ≡ (length a + 2, s)
      → inodes.write_at (t.files f).inode (with_nuls b) (pos (n + length a)) s ≡ (length b + 2, s')
      → (t' : Table S) × (file_write inodes f
            (with_nuls b)
            ((file_write inodes f (with_nuls a) t).1)
          ≡ (length b + 2, t'))
        × (t'.inodes ≡ s')
        × ((t'.files f).pos ≡ pos (n + length a + length b))
  file_write-twice f a b n t s s' at_n first second =
      let g : File = record (t.files f) { pos = pos (n + length a) } in
      let t1 : Table S = record t { files = update t.files f g; inodes = s } in
      let here : t1.files f ≡ g = update_self t.files f g in
      let wrote : inodes.write_at (t1.files f).inode (with_nuls b) (pos (n + length a)) t1.inodes
          ≡ (length b + 2, s') =
        ap (λ (h : File). inodes.write_at h.inode (with_nuls b) (pos (n + length a)) s) here
        ∙ second in
      let h : File = record (t1.files f) { pos = pos (n + length a + length b) } in
      (
        record t1 { files = update t1.files f h; inodes = s' },
        ap (λ (r : ℕ × Table S). file_write inodes f (with_nuls b) r.1)
              (file_write-text f a n t s at_n first)
            ∙ file_write-text f b (n + length a) t1 s' (ap (λ (k : File). k.pos) here) wrote,
        refl,
        ap (λ (k : File). k.pos) (update_self t1.files f h),
      )
