-- ===== src/Fs/Cache/Eviction.antt =====
-- The clock of a3/fs/cache.c stops, and the slot that it frees may be filled.
use native.Mathlib.Decide.{ℕ_discrete}
use mathlib.Core.Path.{subst}
use comp310_w.Prelude.{
  ℕ, zero, suc, ◌+◌, ◌≤◌, ◌<◌, ◌≡◌, refl, sym, ◌∙◌, ap, if◌then◌else◌, not, true, false, some, List,
  [], ◌∷◌, get_or, set, length, length-set, arith, Bool-cases, if_true, if_false, inl, inr,
}
use comp310_w.Fs.Cache.{
  Entry, State, blank, at, put, advance, clock_loop, buffer_cache_flush, evict_slot,
}
use comp310_w.Fs.Cache.Agrees.{IsDevice, Agrees-touch, Agrees-free}
use comp310_w.Fs.Cache.Flushing.{
  Models, Miss, Miss-set, entry_self, entry_ne, buffer_cache_flush-Flushed,
}

module _ {Sector : Type 0} where
  -- How many entries have their access bit set.
  abbrev pub accesses : List (Entry Sector) → ℕ
  accesses [] = 0
  accesses (e ∷ es) = (if e.access then 1 else 0) + accesses es

  pub accesses-le : (es : List (Entry Sector)) → accesses es ≤ length es
  accesses-le [] = omega arith
  accesses-le (e ∷ es) = ground (arith, accesses-le es)

  accesses-set :
      (es : List (Entry Sector)) (i : ℕ) (e d : Entry Sector)
      → i < length es
      → (get_or es i d).access ≡ true
      → e.access ≡ false
      → accesses (set es i e) < accesses es
  accesses-set [] i e d room on off = absurd (omega arith)
  accesses-set (c ∷ es) zero e d room on off = ground arith
  accesses-set (c ∷ es) (suc i) e d room on off =
      ground (arith, accesses-set es i e d (omega arith) on off)

module _ {Device Sector : Type 0} (block_read : ℕ → Device → Sector)
    (block_write : ℕ → Sector → Device → Device) (zeros : Sector)
    (dev : IsDevice block_read block_write) where
  abbrev entry : State Device Sector → ℕ → Entry Sector
  entry s j = at block_read block_write zeros s j

  module _ (f : ℕ → Sector) (x : ℕ) where
    -- The state stands for the disk, and the sector is in no entry.
    pub record Ready (s : State Device Sector) : Type 0 where
      pub models : Models block_read block_write zeros dev s f
      pub miss : Miss block_read block_write zeros dev s x

    advance-Ready :
        (s : State Device Sector) → Ready s → Ready (advance block_read block_write zeros s)
    advance-Ready s r =
        let s' = advance block_read block_write zeros s in
        let e = record (entry s s.clock) { access = false } in
        let room : s.clock < length s.cache = omega (arith, r.models.size, r.models.hand) in
        record {
          models = record {
            size = length-set s.cache s.clock e ∙ r.models.size;
            hand = omega arith;
            agrees =
                Agrees-touch block_read block_write (entry s) (entry s') s.device f r.models.agrees
                  s.clock (entry_ne block_read block_write zeros dev s s' s.clock e refl) false
                  (entry_self block_read block_write zeros dev s s' s.clock e refl room);
          };
          miss =
              Miss-set block_read block_write zeros dev s s' s.clock e refl x r.miss room refl refl;
        }

    -- What the loop of the clock stops at.
    pub record Stopped (s : State Device Sector) : Type 0 where
      pub ready : Ready s
      pub unused : (entry s s.clock).occupied ≡ true → (entry s s.clock).access ≡ false

    clock_turn :
        (k : ℕ) (s : State Device Sector)
        → (entry s s.clock).occupied ≡ true
        → (entry s s.clock).access ≡ true
        → clock_loop block_read block_write zeros (suc k) s
          ≡ clock_loop block_read block_write zeros k (advance block_read block_write zeros s)
    unfolding clock_loop
    clock_turn k s full on = if_false _ _ (ap not full) ∙ if_true _ _ on

    -- The clock stops after at most one round more than there are access bits.
    pub clock_loop-Stopped :
        (k : ℕ) (s : State Device Sector)
        → Ready s
        → accesses s.cache < k
        → (s' : State Device Sector) × (clock_loop block_read block_write zeros k s ≡ some s')
          × Stopped s'
    unfolding clock_loop
    clock_loop-Stopped zero s r enough = absurd (omega arith)
    clock_loop-Stopped (suc k) s r enough = elim (Bool-cases ((entry s s.clock).occupied)) [
      | inr empty ↦ (s, rw empty, record { ready = r; unused = λ o. absurd (ground arith) })
      | inl full ↦ elim (Bool-cases ((entry s s.clock).access)) [
        | inr off ↦ (s, rw (full, off), record { ready = r; unused = λ _. off })
        | inl on ↦
            let room : s.clock < length s.cache = omega (arith, r.models.size, r.models.hand) in
            let fewer =
              accesses-set s.cache s.clock (record (entry s s.clock) { access = false })
                (blank block_read block_write zeros) room on refl in
            let (s', e, st) =
              clock_loop-Stopped k (advance block_read block_write zeros s) (advance-Ready s r)
                (omega (arith, fewer)) in
            (s', clock_turn k s full on ∙ e, st)
      ]
    ]

    -- The slot that `buffer_cache_evict` hands out.
    pub record Evicted (s : State Device Sector) : Type 0 where
      pub ready : Ready s
      pub empty : (entry s s.clock).occupied ≡ false

    -- An entry for which the device is up to date is given up.
    give_up :
        (s : State Device Sector)
        → Ready s
        → (entry s s.clock).dirty ≡ false
        → Evicted (
            put block_read block_write zeros s s.clock
              (record (entry s s.clock) { occupied = false }))
    give_up s r clean =
        let e = record (entry s s.clock) { occupied = false } in
        let s' = put block_read block_write zeros s s.clock e in
        let room : s.clock < length s.cache = omega (arith, r.models.size, r.models.hand) in
        let self = entry_self block_read block_write zeros dev s s' s.clock e refl room in
        let empty : (entry s' s.clock).occupied ≡ false =
          ap (λ (e : Entry Sector). e.occupied) self in
        record {
          ready = record {
            models = record {
              size = length-set s.cache s.clock e ∙ r.models.size;
              hand = r.models.hand;
              agrees =
                  Agrees-free block_read block_write (entry s) (entry s') s.device f r.models.agrees
                    s.clock (entry_ne block_read block_write zeros dev s s' s.clock e refl)
                    (λ full. r.models.agrees.clean s.clock full clean) empty;
            };
            miss = λ j oj q. elim (ℕ_discrete j s.clock) [
              | yes eq ↦ absurd (ground arith)
              | no ne ↦
                  let same = entry_ne block_read block_write zeros dev s s' s.clock e refl j ne in
                  r.miss j (ap (λ (e : Entry Sector). e.occupied) (sym same) ∙ oj)
                    (ap (λ (e : Entry Sector). e.disk_sector) (sym same) ∙ q)
            ];
          };
          empty = empty;
        }

    pub evict_slot-Evicted :
        (s : State Device Sector) → Ready s → Evicted (evict_slot block_read block_write zeros s)
    unfolding evict_slot
    evict_slot-Evicted s r = elim (Bool-cases ((entry s s.clock).occupied)) [
      | inr empty ↦ subst Evicted (sym (if_false _ _ empty)) (record { ready = r; empty = empty })
      | inl full ↦
          let fl =
            buffer_cache_flush-Flushed block_read block_write zeros dev f s.clock s r.models full
              (r.models.hand) in
          let s1 = buffer_cache_flush block_read block_write zeros s.clock s in
          let at_hand = λ (c : ℕ).
            put block_read block_write zeros s1 c (record (entry s1 c) { occupied = false }) in
          subst Evicted (ap at_hand (fl.clock) ∙ sym (if_true _ _ full)) (
            give_up s1 (record { models = fl.models; miss = fl.miss x r.miss })
              (ap (λ c. (entry s1 c).dirty) (fl.clock) ∙ fl.dirty))
    ]
