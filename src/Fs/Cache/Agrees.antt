-- ===== src/Fs/Cache/Agrees.antt =====
-- When the entries of the cache and the device (a3/fs/cache.c) stand for one disk, and which
-- changes of one entry keep that.
use native.Mathlib.Decide.{ℕ_discrete}
use comp310_w.Prelude.{
  ℕ, ◌≡◌, sym, ◌∙◌, ap, ◌≢◌, ◌==◌, Bool, true, false, arith, Bool-cases, inl, inr,
}
use comp310_w.Prelude.Update.{update}
use comp310_w.Fs.Cache.{Entry}

-- What the cache relies on of the device: a sector that is written reads back, and the others stay.
pub record IsDevice {Device Sector : Type 0} (block_read : ℕ → Device → Sector)
    (block_write : ℕ → Sector → Device → Device) : Type 0 where
  pub same : (x : ℕ) (v : Sector) (d : Device) → block_read x (block_write x v d) ≡ v
  pub other :
      (x y : ℕ) (v : Sector) (d : Device)
      → x ≢ y
      → block_read y (block_write x v d) ≡ block_read y d

-- Two arrays that differ at one index at most agree in every field that agrees there.
pub keeps :
    {E A : Type 0} (g g' : ℕ → E) (i : ℕ) (field : E → A)
    → ((j : ℕ) → j ≢ i → g' j ≡ g j)
    → field (g' i) ≡ field (g i)
    → (j : ℕ) → field (g' j) ≡ field (g j)
keeps g g' i field same here j = elim (ℕ_discrete j i) [
  | yes e ↦ rw e here
  | no ne ↦ ap field (same j ne)
]

module _ {Device Sector : Type 0} (block_read : ℕ → Device → Sector)
    (block_write : ℕ → Sector → Device → Device) where
  -- Entries at all indices and a device stand for a disk: no sector is in two entries, an entry
  -- holds what the disk has, the device is behind only for dirty entries.
  pub record Agrees (g : ℕ → Entry Sector) (d : Device) (f : ℕ → Sector) : Type 0 where
    pub distinct :
        (i j : ℕ)
        → (g i).occupied ≡ true
        → (g j).occupied ≡ true
        → (g i).disk_sector ≡ (g j).disk_sector
        → i ≡ j
    pub cached : (i : ℕ) → (g i).occupied ≡ true → (g i).buffer ≡ f ((g i).disk_sector)
    pub clean :
        (i : ℕ)
        → (g i).occupied ≡ true
        → (g i).dirty ≡ false
        → block_read ((g i).disk_sector) d ≡ f ((g i).disk_sector)
    pub uncached :
        (x : ℕ) → ((i : ℕ) → (g i).occupied ≡ true → (g i).disk_sector ≢ x) → block_read x d ≡ f x

  module _ (g g' : ℕ → Entry Sector) (d : Device) (f : ℕ → Sector) (a : Agrees g d f) where
    -- Access bits do not matter.
    pub Agrees-congr :
        ((j : ℕ) → (g' j).occupied ≡ (g j).occupied)
        → ((j : ℕ) → (g' j).disk_sector ≡ (g j).disk_sector)
        → ((j : ℕ) → (g' j).buffer ≡ (g j).buffer)
        → ((j : ℕ) → (g' j).dirty ≡ (g j).dirty)
        → Agrees g' d f
    Agrees-congr o s b w = record {
      distinct =
          λ i j oi oj e. a.distinct i j (sym (o i) ∙ oi) (sym (o j) ∙ oj) (sym (s i) ∙ e ∙ s j);
      cached = λ i oi. rw (s i, b i) (a.cached i (sym (o i) ∙ oi));
      clean = λ i oi wi. rw (s i) (a.clean i (sym (o i) ∙ oi) (sym (w i) ∙ wi));
      uncached = λ x out. a.uncached x (λ i oi e. out i (o i ∙ oi) (s i ∙ e));
    }

    module _ (i : ℕ) (same : (j : ℕ) → j ≢ i → g' j ≡ g j) where
      -- An access bit changes.
      pub Agrees-touch : (b : Bool) → g' i ≡ record (g i) { access = b } → Agrees g' d f
      Agrees-touch b here =
          Agrees-congr (keeps g g' i (λ (e : Entry Sector). e.occupied) same (rw here))
            (keeps g g' i (λ (e : Entry Sector). e.disk_sector) same (rw here))
            (keeps g g' i (λ (e : Entry Sector). e.buffer) same (rw here))
            (keeps g g' i (λ (e : Entry Sector). e.dirty) same (rw here))

      -- A dirty entry goes to the device.
      pub Agrees-flush :
          IsDevice block_read block_write
          → (g i).occupied ≡ true
          → g' i ≡ record (g i) { dirty = false }
          → Agrees g' (block_write ((g i).disk_sector) ((g i).buffer) d) f
      Agrees-flush dev o here =
          let occ : (j : ℕ) → (g' j).occupied ≡ (g j).occupied =
            keeps g g' i (λ (e : Entry Sector). e.occupied) same (rw here) in
          let sec : (j : ℕ) → (g' j).disk_sector ≡ (g j).disk_sector =
            keeps g g' i (λ (e : Entry Sector). e.disk_sector) same (rw here) in
          let buf : (j : ℕ) → (g' j).buffer ≡ (g j).buffer =
            keeps g g' i (λ (e : Entry Sector). e.buffer) same (rw here) in
          let d' = block_write ((g i).disk_sector) ((g i).buffer) d in
          record {
            distinct = λ j k oj ok e.
                a.distinct j k (sym (occ j) ∙ oj) (sym (occ k) ∙ ok) (sym (sec j) ∙ e ∙ sec k);
            cached = λ j oj. rw (sec j, buf j) (a.cached j (sym (occ j) ∙ oj));
            clean = λ j oj wj. elim (ℕ_discrete j i) [
              | yes e ↦ rw (e, here) (dev.same _ _ d ∙ a.cached i o)
              | no ne ↦
                  let oj' = sym (occ j) ∙ oj in
                  let wj' : (g j).dirty ≡ false = rw (same j ne) at wj in
                  rw (sec j)
                    (dev.other _ _ _ d (λ e. ne (a.distinct j i oj' o (sym e))) ∙ a.clean j oj' wj')
            ];
            uncached = λ x out.
                dev.other _ x _ d (λ e. out i (occ i ∙ o) (sec i ∙ e))
                ∙ a.uncached x (λ j oj e. out j (occ j ∙ oj) (sec j ∙ e));
          }

      -- An entry is given up for which the device is up to date.
      pub Agrees-free :
          ((g i).occupied ≡ true → block_read ((g i).disk_sector) d ≡ f ((g i).disk_sector))
          → (g' i).occupied ≡ false
          → Agrees g' d f
      Agrees-free current here =
          let back : (j : ℕ) → (g' j).occupied ≡ true → g' j ≡ g j =
            λ j oj. elim (ℕ_discrete j i) [ yes e ↦ absurd (ground arith) | no ne ↦ same j ne ] in
          record {
            distinct = λ j k oj ok e.
                let ej = back j oj in
                let ek = back k ok in
                a.distinct j k (ap (λ (x : Entry Sector). x.occupied) (sym ej) ∙ oj)
                  (ap (λ (x : Entry Sector). x.occupied) (sym ek) ∙ ok)
                  (ap (λ (x : Entry Sector). x.disk_sector) (sym ej)
                    ∙ e
                    ∙ ap (λ (x : Entry Sector). x.disk_sector) ek);
            cached = λ j oj. rw (back j oj) (a.cached j (rw (back j oj) at oj));
            clean =
                λ j oj wj. rw (back j oj) (a.clean j (rw (back j oj) at oj) (rw (back j oj) at wj));
            uncached = λ x out.
                let others : (j : ℕ) → j ≢ i → (g j).occupied ≡ true → (g j).disk_sector ≢ x =
                  λ j ne oj e. out j (rw (same j ne) oj) (rw (same j ne) e) in
                elim (Bool-cases ((g i).occupied)) [
                  | inr no_entry ↦ a.uncached x (λ j oj e. elim (ℕ_discrete j i) [
                    | yes eq ↦ absurd (ground arith)
                    | no ne ↦ others j ne oj e
                  ])
                  | inl o ↦ elim (ℕ_discrete ((g i).disk_sector) x) [
                    | yes e ↦ rw (← e) (current o)
                    | no apart ↦ a.uncached x (λ j oj e. elim (ℕ_discrete j i) [
                      | yes eq ↦ apart (rw (← eq) e)
                      | no ne ↦ others j ne oj e
                    ])
                  ]
                ];
          }

      -- A sector that is in no entry is read into an empty one.
      pub Agrees-fill :
          (x : ℕ)
          → (g i).occupied ≡ false
          → ((j : ℕ) → (g j).occupied ≡ true → (g j).disk_sector ≢ x)
          → (g' i).disk_sector ≡ x
          → (g' i).buffer ≡ block_read x d
          → Agrees g' d f
      Agrees-fill x empty miss sector buffer =
          let fresh : block_read x d ≡ f x = a.uncached x miss in
          let apart : (j : ℕ) → j ≢ i → (g' j).occupied ≡ true → (g' j).disk_sector ≢ x =
            λ j ne oj e. miss j (rw (same j ne) at oj) (rw (same j ne) at e) in
          record {
            distinct = λ j k oj ok e. elim (ℕ_discrete j i) [
              | yes ej ↦ elim (ℕ_discrete k i) [
                | yes ek ↦ ej ∙ sym ek
                | no nk ↦ absurd (apart k nk ok (sym e ∙ rw (ej, sector)))
              ]
              | no nj ↦ elim (ℕ_discrete k i) [
                | yes ek ↦ absurd (apart j nj oj (e ∙ rw (ek, sector)))
                | no nk ↦
                    a.distinct j k (rw (same j nj) at oj) (rw (same k nk) at ok)
                      (rw (same j nj, same k nk) at e)
              ]
            ];
            cached = λ j oj. elim (ℕ_discrete j i) [
              | yes e ↦ rw (e, sector, buffer) fresh
              | no ne ↦ rw (same j ne) (a.cached j (rw (same j ne) at oj))
            ];
            clean = λ j oj wj. elim (ℕ_discrete j i) [
              | yes e ↦ rw (e, sector) fresh
              | no ne ↦ rw (same j ne) (a.clean j (rw (same j ne) at oj) (rw (same j ne) at wj))
            ];
            uncached = λ y out. a.uncached y (λ j oj e. elim (ℕ_discrete j i) [
              | yes eq ↦ absurd (ground arith)
              | no ne ↦ out j (rw (same j ne) oj) (rw (same j ne) e)
            ]);
          }

      -- The buffer of an entry is written, and the entry is dirty from then on.
      pub Agrees-write :
          (v : Sector)
          → (g i).occupied ≡ true
          → g' i ≡ record (g i) { access = true; dirty = true; buffer = v }
          → Agrees g' d (update f ((g i).disk_sector) v)
      Agrees-write v o here =
          let x = (g i).disk_sector in
          let apart : (j : ℕ) → j ≢ i → (g j).occupied ≡ true → (x == (g j).disk_sector) ≡ false =
            λ j ne oj. ground (arith, a.distinct j i oj o) in
          record {
            distinct =
                λ j k oj ok e. a.distinct j k (occ j ∙ oj) (occ k ∙ ok) (sec j ∙ e ∙ sym (sec k));
            cached = λ j oj. elim (ℕ_discrete j i) [
              | yes e ↦ rw (e, here) (ground arith)
              | no ne ↦ let oj' = occ j ∙ oj in rw (same j ne, apart j ne oj') (a.cached j oj')
            ];
            clean = λ j oj wj. elim (ℕ_discrete j i) [
              | yes e ↦ absurd (ground arith)
              | no ne ↦
                  let oj' = occ j ∙ oj in
                  rw (same j ne, apart j ne oj') (a.clean j oj' (rw (same j ne) at wj))
            ];
            uncached = λ y out.
                let out' : (j : ℕ) → (g j).occupied ≡ true → (g j).disk_sector ≢ y =
                  λ j oj e. out j (sym (occ j) ∙ oj) (sym (sec j) ∙ e) in
                let no_hit : (x == y) ≡ false = ground (arith, out' i o) in
                rw no_hit (a.uncached y out');
          }
        where
          occ : (j : ℕ) → (g j).occupied ≡ (g' j).occupied
          occ j = sym (keeps g g' i (λ (e : Entry Sector). e.occupied) same (rw here) j)

          sec : (j : ℕ) → (g j).disk_sector ≡ (g' j).disk_sector
          sec j = sym (keeps g g' i (λ (e : Entry Sector). e.disk_sector) same (rw here) j)
