-- ===== src/Fs/FreeMap/Allocating.antt =====
-- Allocating and releasing sectors (a3/fs/free-map.c).
use native.Mathlib.Decide.{dec_lt}
use mathlib.Core.Path.{subst}
use mathlib.Core.Option.{some-injective, none-ne-some}
use comp310_w.Prelude.{
  ℕ, ◌+◌, ◌==◌, true, false, Option, none, some, ◌≡◌, refl, sym, ◌∙◌, ap, inl, inr, Bool-cases,
  arith, ◌⊎◌, ◌≢◌,
}
use comp310_w.Fs.FreeMap.{
  bitmap_error, Bitmap, IsBitmap, Inside, State, saved, free_map_allocate, free_map_release,
}

module _ {B W : Type 0} (bitmap : Bitmap B W) where
  module _ (laws : IsBitmap bitmap) where
    -- The bitmaps before and after an allocation that succeeded: `true` is a sector in use.
    pub record Allocated (cnt : ℕ) (b b' : B) (sector : ℕ) : Type 0 where
      pub was_free : (x : ℕ) → Inside sector cnt x → bitmap.test b x ≡ false
      pub in_use : (x : ℕ) → Inside sector cnt x → bitmap.test b' x ≡ true
      pub others : (x : ℕ) → (Inside sector cnt x → ⊥) → bitmap.test b' x ≡ bitmap.test b x

    module _ (cnt : ℕ) (st : State B W) where
      abbrev scanned : ℕ × B
      scanned = bitmap.scan_and_flip st.free_map 0 cnt false

      abbrev result : Option ℕ × State B W
      result = free_map_allocate bitmap cnt st

      -- The sectors from one on are in use, or not.
      Inside-cases : (sector x : ℕ) → Inside sector cnt x ⊎ (Inside sector cnt x → ⊥)
      Inside-cases sector x = elim (dec_lt x sector) [
        | yes below ↦ inr (λ i. absurd (omega (arith, i.0)))
        | no low ↦ elim (dec_lt x (sector + cnt)) [
          | yes high ↦ inl (omega arith, high)
          | no above ↦ inr (λ i. above (i.1))
        ]
      ]

      saved-free_map : (b : B) → (saved bitmap b st).1.free_map ≡ b
      saved-free_map b = elim (Bool-cases (st.file)) [ inl e ↦ rw e refl | inr e ↦ rw e refl ]

      flipped-Allocated :
          scanned.0 ≢ bitmap_error → Allocated cnt st.free_map (scanned.1) (scanned.0)
      flipped-Allocated h =
          let flip = laws.scan-flip st.free_map 0 cnt false h in
          record {
            was_free = λ x i. laws.scan-free st.free_map 0 cnt false x h i;
            in_use = λ x i. rw flip (laws.set_multiple-inside st.free_map (scanned.0) cnt true x i);
            others =
                λ x o. rw flip (laws.set_multiple-outside st.free_map (scanned.0) cnt true x o);
          }

      -- Giving back the sectors of an allocation leaves the map as it was.
      given_back :
          (b' : B) (sector : ℕ)
          → Allocated cnt st.free_map b' sector
          → (x : ℕ)
          → bitmap.test (bitmap.set_multiple b' sector cnt false) x ≡ bitmap.test st.free_map x
      given_back b' sector a x = elim (Inside-cases sector x) [
        | inl i ↦ laws.set_multiple-inside b' sector cnt false x i ∙ sym (a.was_free x i)
        | inr o ↦ laws.set_multiple-outside b' sector cnt false x o ∙ a.others x o
      ]

      -- An allocation takes sectors that were free and no others; one that fails, because no run of
      -- sectors is free or because the map cannot be written, leaves every sector as it was.
      pub free_map_allocate-Allocated :
          ((sector : ℕ) × ((free_map_allocate bitmap cnt st).0 ≡ some sector)
            × Allocated cnt st.free_map ((free_map_allocate bitmap cnt st).1.free_map) sector)
          ⊎ (((free_map_allocate bitmap cnt st).0 ≡ none)
              × ((x : ℕ)
                  → bitmap.test ((free_map_allocate bitmap cnt st).1.free_map) x
                    ≡ bitmap.test st.free_map x))
      unfolding free_map_allocate
      free_map_allocate-Allocated = elim (Bool-cases (scanned.0 == bitmap_error)) [
        | inl e ↦
            let full : scanned.0 ≡ bitmap_error = ground arith in
            inr (
              rw e refl,
              λ x. rw e (ap (λ b. bitmap.test b x) (laws.scan-error st.free_map 0 cnt false full)),
            )
        | inr e ↦
            let found : scanned.0 ≢ bitmap_error = ground arith in
            let a = flipped-Allocated found in
            elim (Bool-cases ((saved bitmap (scanned.1) st).0)) [
              | inl ok ↦ inl (
                scanned.0,
                rw (e, ok) refl,
                subst (λ b'. Allocated cnt st.free_map b' (scanned.0))
                    (sym (saved-free_map (scanned.1)) ∙ rw (e, ok) refl) a,
              )
              | inr ko ↦
                  inr (rw (e, ko) refl, λ x. rw (e, ko) (given_back (scanned.1) (scanned.0) a x))
            ]
      ]

      -- A sector that was allocated and is released again leaves the map as it was.
      pub free_map_release-free_map_allocate :
          (sector : ℕ)
          → (free_map_allocate bitmap cnt st).0 ≡ some sector
          → (x : ℕ)
          → bitmap.test
              ((free_map_release bitmap sector cnt ((free_map_allocate bitmap cnt st).1)).free_map)
              x
            ≡ bitmap.test st.free_map x
      unfolding free_map_release
      free_map_release-free_map_allocate sector h x = elim free_map_allocate-Allocated [
        | inr (e, _) ↦ absurd (none-ne-some sector (sym e ∙ h))
        | inl (sector', e, a) ↦
            let same : sector' ≡ sector = some-injective sector' sector (sym e ∙ h) in
            subst
              (λ y.
                bitmap.test
                  (bitmap.set_multiple ((free_map_allocate bitmap cnt st).1.free_map) y cnt false) x
                ≡ bitmap.test st.free_map x)
              same (given_back _ sector' a x)
      ]
