-- ===== src/Fs/Cache/Coherent.antt =====
-- The buffer cache of a3/fs/cache.c behaves as the disk that it stands for.
use native.Mathlib.Decide.{dec_lt}
use mathlib.Core.Path.{subst}
use comp310_w.Prelude.{
  ℕ, ◌<◌, ◌≡◌, refl, ◌∙◌, ap, true, false, none, some, length, length-set, get_or_of_length-le,
  arith, Option-cases, inl, inr,
}
use comp310_w.Prelude.Update.{update}
use comp310_w.Prelude.Scan.{first_from-Found, first_from-none}
use comp310_w.Fs.Cache.{
  Entry, State, buffer_cache_size, at, put, holds, buffer_cache_lookup, clock_loop, evict_slot,
  buffer_cache_evict, fill, find_slot, buffer_cache_read, buffer_cache_write,
}
use comp310_w.Fs.Cache.Agrees.{IsDevice, Agrees, Agrees-touch, Agrees-fill, Agrees-write}
use comp310_w.Fs.Cache.Eviction.{
  Ready, Evicted, accesses-le, clock_loop-Stopped, evict_slot-Evicted,
}
use comp310_w.Fs.Cache.Flushing.{Models, Miss, entry_self, entry_ne}

module _ {Device Sector : Type 0} (block_read : ℕ → Device → Sector)
    (block_write : ℕ → Sector → Device → Device) (zeros : Sector)
    (dev : IsDevice block_read block_write) where
  abbrev entry : State Device Sector → ℕ → Entry Sector
  entry s j = at block_read block_write zeros s j

  -- The state stands for the disk `f`.
  abbrev pub StandsFor : State Device Sector → (ℕ → Sector) → Type 0
  StandsFor s f = Models block_read block_write zeros dev s f

  -- The calls of each operation, with their results.
  module _ (fuel x : ℕ) (s : State Device Sector) where
    find_slot-missed :
        (s1 : State Device Sector)
        → buffer_cache_lookup block_read block_write zeros x s ≡ none
        → clock_loop block_read block_write zeros fuel s ≡ some s1
        → find_slot block_read block_write zeros fuel x s
          ≡ some (
            (evict_slot block_read block_write zeros s1).clock,
            fill block_read block_write zeros x (evict_slot block_read block_write zeros s1),
          )
    unfolding find_slot buffer_cache_evict
    find_slot-missed s1 e c = rw (find_slot, e, buffer_cache_evict, c)

    module _ (i : ℕ) (s' : State Device Sector)
        (found : find_slot block_read block_write zeros fuel x s ≡ some (i, s')) where
      buffer_cache_read-done :
          (v : Sector)
          → (entry s' i).buffer ≡ v
          → buffer_cache_read block_read block_write zeros fuel x s
            ≡ some
                (v, put block_read block_write zeros s' i (record (entry s' i) { access = true }))
      unfolding buffer_cache_read
      buffer_cache_read-done v e = rw (buffer_cache_read, found, e)

      buffer_cache_write-done :
          (v : Sector)
          → buffer_cache_write block_read block_write zeros fuel x v s
            ≡ some (
                put block_read block_write zeros s' i
                  (record (entry s' i) { access = true; dirty = true; buffer = v }))
      unfolding buffer_cache_write
      buffer_cache_write-done v = rw (buffer_cache_write, found)

  -- What a lookup finds, and what a miss means.
  module _ (s : State Device Sector) (f : ℕ → Sector) (m : StandsFor s f) (x : ℕ) where
    pub lookup-hit :
        (i : ℕ)
        → buffer_cache_lookup block_read block_write zeros x s ≡ some i
        → (i < buffer_cache_size) × ((entry s i).occupied ≡ true) × ((entry s i).disk_sector ≡ x)
    unfolding buffer_cache_lookup
    lookup-hit i h =
        let found =
          first_from-Found (holds block_read block_write zeros s x) 0 buffer_cache_size h in
        (omega (arith, found.high), ground (arith, found.passes), ground (arith, found.passes))

    pub lookup-Miss :
        buffer_cache_lookup block_read block_write zeros x s ≡ none
        → Miss block_read block_write zeros dev s x
    unfolding buffer_cache_lookup
    lookup-Miss h j oj e = elim (dec_lt j buffer_cache_size) [
      | yes inside ↦
          let out =
            first_from-none (holds block_read block_write zeros s x) 0 buffer_cache_size h j
              (omega arith) inside in
          absurd (ground arith)
      | no outside ↦
          let off : (entry s j).occupied ≡ false =
            ap (λ (e : Entry Sector). e.occupied)
              (get_or_of_length-le s.cache j _ (omega (arith, m.size))) in
          absurd (ground arith)
    ]

    -- A slot that holds the sector.
    record Slot (i : ℕ) (s' : State Device Sector) : Type 0 where
      stands : StandsFor s' f
      bound : i < buffer_cache_size
      occupied : (entry s' i).occupied ≡ true
      sector : (entry s' i).disk_sector ≡ x

    fill-Slot :
        (s' : State Device Sector)
        → Evicted block_read block_write zeros dev f x s'
        → Slot (s'.clock) (fill block_read block_write zeros x s')
    unfolding fill
    fill-Slot s' ev =
        let mo = ev.ready.models in
        let t = fill block_read block_write zeros x s' in
        let e : Entry Sector = record (entry s' s'.clock) {
          occupied = true;
          disk_sector = x;
          dirty = false;
          buffer = block_read x s'.device;
        } in
        let room : s'.clock < length s'.cache = omega (arith, mo.size, mo.hand) in
        let self = entry_self block_read block_write zeros dev s' t s'.clock e refl room in
        let sector : (entry t s'.clock).disk_sector ≡ x =
          ap (λ (e : Entry Sector). e.disk_sector) self in
        record {
          stands = record {
            size = length-set s'.cache s'.clock e ∙ mo.size;
            hand = mo.hand;
            agrees =
                Agrees-fill block_read block_write (entry s') (entry t) s'.device f mo.agrees
                  s'.clock (entry_ne block_read block_write zeros dev s' t s'.clock e refl) x
                  (ev.empty) (ev.ready.miss) sector (ap (λ (e : Entry Sector). e.buffer) self);
          };
          bound = mo.hand;
          occupied = ap (λ (e : Entry Sector). e.occupied) self;
          sector = sector;
        }

    -- A slot is found for every sector, if there is fuel for one round more than entries.
    find_slot-Slot :
        (fuel : ℕ)
        → buffer_cache_size < fuel
        → (i : ℕ) × (s' : State Device Sector) × (find_slot block_read block_write zeros fuel x s
            ≡ some (i, s'))
          × Slot i s'
    unfolding find_slot buffer_cache_evict
    find_slot-Slot fuel enough =
        elim (Option-cases (buffer_cache_lookup block_read block_write zeros x s)) [
          | inr (i, e) ↦
              let (bound, full, sector) = lookup-hit i e in
              (
                i,
                s,
                rw (find_slot, e),
                record { stands = m; bound = bound; occupied = full; sector = sector },
              )
          | inl e ↦
              let ready : Ready block_read block_write zeros dev f x s = record {
                models = m;
                miss = lookup-Miss e;
              } in
              let (s1, stops, st) =
                clock_loop-Stopped block_read block_write zeros dev f x fuel s ready
                  (omega (arith, accesses-le s.cache, m.size)) in
              let s2 = evict_slot block_read block_write zeros s1 in
              let ev = evict_slot-Evicted block_read block_write zeros dev f x s1 (st.ready) in
              (
                s2.clock,
                fill block_read block_write zeros x s2,
                find_slot-missed fuel x s s1 e stops,
                fill-Slot s2 ev,
              )
        ]

    touch-Slot :
        (i : ℕ) (s' : State Device Sector)
        → Slot i s'
        → StandsFor
            (put block_read block_write zeros s' i (record (entry s' i) { access = true }))
            f
    touch-Slot i s' sl =
        let e = record (entry s' i) { access = true } in
        let t = put block_read block_write zeros s' i e in
        let room : i < length s'.cache = omega (arith, sl.stands.size, sl.bound) in
        record {
          size = length-set s'.cache i e ∙ sl.stands.size;
          hand = sl.stands.hand;
          agrees =
              Agrees-touch block_read block_write (entry s') (entry t) s'.device f
                (sl.stands.agrees) i (entry_ne block_read block_write zeros dev s' t i e refl) true
                (entry_self block_read block_write zeros dev s' t i e refl room);
        }

    -- `buffer_cache_read` ends, whatever has to be evicted, returns what the disk that the state
    -- stands for has at the sector, and the state goes on to stand for the same disk.
    pub buffer_cache_read-StandsFor :
        (fuel : ℕ)
        → buffer_cache_size < fuel
        → (s' : State Device Sector) × (buffer_cache_read block_read block_write zeros fuel x s
            ≡ some (f x, s'))
          × StandsFor s' f
    buffer_cache_read-StandsFor fuel enough =
        let (i, s', found, sl) = find_slot-Slot fuel enough in
        let value : (entry s' i).buffer ≡ f x =
          sl.stands.agrees.cached i (sl.occupied) ∙ ap f (sl.sector) in
        (
          put block_read block_write zeros s' i (record (entry s' i) { access = true }),
          buffer_cache_read-done fuel x s i s' found (f x) value,
          touch-Slot i s' sl,
        )

    -- `buffer_cache_write` ends, and the state goes on to stand for the disk with that one sector
    -- written.
    pub buffer_cache_write-StandsFor :
        (fuel : ℕ) (source : Sector)
        → buffer_cache_size < fuel
        → (s' : State Device Sector) × (buffer_cache_write block_read block_write zeros fuel x
              source s
            ≡ some s')
          × StandsFor s' (update f x source)
    buffer_cache_write-StandsFor fuel source enough =
        let (i, s', found, sl) = find_slot-Slot fuel enough in
        let e = record (entry s' i) { access = true; dirty = true; buffer = source } in
        let t = put block_read block_write zeros s' i e in
        let room : i < length s'.cache = omega (arith, sl.stands.size, sl.bound) in
        (
          t,
          buffer_cache_write-done fuel x s i s' found source,
          record {
            size = length-set s'.cache i e ∙ sl.stands.size;
            hand = sl.stands.hand;
            agrees =
                subst (λ y. Agrees block_read block_write (entry t) s'.device (update f y source))
                  (sl.sector)
                  (Agrees-write block_read block_write (entry s') (entry t) s'.device f
                    (sl.stands.agrees) i (entry_ne block_read block_write zeros dev s' t i e refl)
                    source (sl.occupied)
                    (entry_self block_read block_write zeros dev s' t i e refl room));
          },
        )
