-- ===== src/Fs/FreeMap.antt =====
-- The free map (a3/fs/free-map.c) over any bitmap.
pub mod Allocating
use native.Mathlib.Decide.{dec_lt}
use mathlib.Core.Path.{subst}
use mathlib.Core.Option.{some-injective, none-ne-some}
use comp310_w.Prelude.{
  ℕ, ◌+◌, ◌-◌, ◌^◌, ◌≤◌, ◌<◌, ◌==◌, if◌then◌else◌, ◌&&◌, not, Bool, true, false, Option, none, some,
  ◌≡◌, refl, sym, ◌∙◌, ap, inl, inr, Bool-cases, if_true, if_false, arith, ◌⊎◌, ◌≢◌,
}

-- `BITMAP_ERROR`
abbrev pub bitmap_error : ℕ
bitmap_error = 2 ^ 32 - 1

abbrev pub free_map_sector : ℕ
free_map_sector = 0

abbrev pub root_dir_sector : ℕ
root_dir_sector = 1

-- What the free map calls of the bitmap, and `bitmap_write` and `bitmap_read`, which go to a file.
pub record Bitmap (B W : Type 0) : Type 0 where
  pub test : B → ℕ → Bool
  pub mark : B → ℕ → B
  pub count : B → ℕ
  pub set_multiple : B → ℕ → ℕ → Bool → B
  pub scan_and_flip : B → ℕ → ℕ → Bool → ℕ × B
  pub write : B → W → Bool × W

-- A sector of the `cnt` from `first` on.
abbrev pub Inside : ℕ → ℕ → ℕ → Type 0
Inside first cnt x = (first ≤ x) × (x < first + cnt)

-- What the bitmap says of these.
pub record IsBitmap {B W : Type 0} (bitmap : Bitmap B W) : Type 0 where
  pub set_multiple-inside :
      (b : B) (start cnt : ℕ) (v : Bool) (x : ℕ)
      → Inside start cnt x
      → bitmap.test (bitmap.set_multiple b start cnt v) x ≡ v
  pub set_multiple-outside :
      (b : B) (start cnt : ℕ) (v : Bool) (x : ℕ)
      → (Inside start cnt x → ⊥)
      → bitmap.test (bitmap.set_multiple b start cnt v) x ≡ bitmap.test b x
  pub scan-error :
      (b : B) (start cnt : ℕ) (v : Bool)
      → (bitmap.scan_and_flip b start cnt v).0 ≡ bitmap_error
      → (bitmap.scan_and_flip b start cnt v).1 ≡ b
  pub scan-free :
      (b : B) (start cnt : ℕ) (v : Bool) (x : ℕ)
      → (bitmap.scan_and_flip b start cnt v).0 ≢ bitmap_error
      → Inside ((bitmap.scan_and_flip b start cnt v).0) cnt x
      → bitmap.test b x ≡ v
  pub scan-flip :
      (b : B) (start cnt : ℕ) (v : Bool)
      → (bitmap.scan_and_flip b start cnt v).0 ≢ bitmap_error
      → (bitmap.scan_and_flip b start cnt v).1
        ≡ bitmap.set_multiple b ((bitmap.scan_and_flip b start cnt v).0) cnt (not v)

-- `free_map`, whether `free_map_file` is there, and the files.
pub record State (B W : Type 0) : Type 0 where
  pub free_map : B
  pub file : Bool
  pub files : W

module _ {B W : Type 0} (bitmap : Bitmap B W) where
  -- The two sectors that `free_map_init` takes of a new bitmap.
  unfoldable pub free_map_init : B → State B W → State B W
  free_map_init created st = record st {
    free_map = bitmap.mark (bitmap.mark created free_map_sector) root_dir_sector;
  }

  unfoldable pub num_free_sectors : State B W → ℕ
  num_free_sectors st = bitmap.count st.free_map

  -- `bitmap_write(free_map, free_map_file)` after `bitmap_scan_and_flip`
  abbrev pub saved : B → State B W → Bool × State B W
  saved b st =
      let (ok, files) = bitmap.write b st.files in
      if st.file
      then (ok, record st { free_map = b; files = files })
      else (true, record st { free_map = b })

  -- The sector that is stored in `*sectorp`, if the call returns true.
  unfoldable pub free_map_allocate : ℕ → State B W → Option ℕ × State B W
  free_map_allocate cnt st =
      let (sector, b) = bitmap.scan_and_flip st.free_map 0 cnt false in
      let (ok, st') = saved b st in
      if sector == bitmap_error
      then (none, record st { free_map = b })
      else if ok
      then (some sector, st')
      else (none, record st' { free_map = bitmap.set_multiple b sector cnt false })

  unfoldable pub free_map_release : ℕ → ℕ → State B W → State B W
  free_map_release sector cnt st =
      let b = bitmap.set_multiple st.free_map sector cnt false in
      record st { free_map = b; files = (bitmap.write b st.files).1 }
