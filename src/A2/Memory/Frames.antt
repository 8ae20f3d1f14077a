-- ===== src/A2/Memory/Frames.antt =====
-- Finding a free frame and a victim (a2/shellmemory.c).
use mathlib.Core.Option
use mathlib.Core.Path.{subst}
use native.Mathlib.Decide.{ℕ_discrete, dec_lt}
use comp310_w.Prelude.{
  ℕ, zero, suc, ◌+◌, ◌*◌, ◌≤◌, ◌<◌, ◌≡◌, refl, sym, ltb, if◌then◌else◌, true, false, Option, none,
  some, arith, Bool-cases, Option-cases, inl, inr,
}
use comp310_w.Prelude.Scan.{first_from, first_from-Found, first_from-none}
use comp310_w.A2.Memory.{
  Memory, at, frame_size, frames, free_frame, find_available_slot, least_loop, find_lru_slot,
  find_fifo_slot,
}

module _ (F V : ℕ) (m : Memory) where
  -- The first of the frames that begin below the threshold and are free.
  pub record IsSlot (i : ℕ) : Type 0 where
    pub number : ℕ
    pub begins : i ≡ frame_size * number
    pub below : i < F
    pub free : free_frame F V m i ≡ true
    pub first : (k : ℕ) → k < number → free_frame F V m (frame_size * k) ≡ false

  -- Where `find_available_slot` returns an index, a frame begins there, below the threshold, all
  -- of whose three lines are free, and no earlier frame is free.
  pub find_available_slot-IsSlot : (i : ℕ) → find_available_slot F V m ≡ some i → IsSlot i
  unfolding find_available_slot
  find_available_slot-IsSlot i h =
      elim (Option-cases (first_from (λ j. free_frame F V m (frame_size * j)) 0 (frames F V))) [
        | inl e ↦ absurd (ground arith)
        | inr (j, e) ↦
            let f = first_from-Found (λ j. free_frame F V m (frame_size * j)) 0 (frames F V) e in
            let begins : i ≡ frame_size * j = ground arith in
            record {
              number = j;
              begins = begins;
              below = omega (arith, f.high);
              free = rw begins (f.passes);
              first = λ k h. f.first k (omega arith) h;
            }
      ]

  -- Where it returns -1, no frame that begins below the threshold is free.
  pub find_available_slot-none :
      find_available_slot F V m ≡ none
      → (k : ℕ) → frame_size * k < F
      → free_frame F V m (frame_size * k) ≡ false
  unfolding find_available_slot
  find_available_slot-none h k below =
      first_from-none (λ j. free_frame F V m (frame_size * j)) 0 (frames F V) (nothing h) k
        (omega arith) (omega arith)
    where
      nothing : {o : Option ℕ} → Option.map (λ j. frame_size * j) o ≡ none → o ≡ none
      nothing {o = none} h = refl
      nothing {o = some x} h = cc

  -- A free frame is found, at or before it.
  pub find_available_slot-some :
      (k : ℕ)
      → frame_size * k < F
      → free_frame F V m (frame_size * k) ≡ true
      → (i : ℕ) × (find_available_slot F V m ≡ some i) × (i ≤ frame_size * k)
  find_available_slot-some k below free = elim (Option-cases (find_available_slot F V m)) [
    | inl e ↦ absurd (ground (arith, find_available_slot-none e k below))
    | inr (i, e) ↦
        let s = find_available_slot-IsSlot i e in (i, e, earlier s.number (s.first k) (s.begins))
  ]
    where
      earlier :
          {i : ℕ} (j : ℕ)
          → (k < j → free_frame F V m (frame_size * k) ≡ false)
          → i ≡ frame_size * j
          → i ≤ frame_size * k
      earlier j no_earlier begins = elim (dec_lt k j) [
        | yes h ↦ absurd (ground (arith, no_earlier h))
        | no h ↦ omega arith
      ]

-- What the search for the least time returns: the first frame of least time if one is below the
-- bound, and -1 if none is.
abbrev pub Least : (ℕ → ℕ) → ℕ → ℕ → Option ℕ → Type 0
Least time n bound none = (k : ℕ) → k < n → bound ≤ time k
Least time n bound (some x) =
    (i : ℕ) × (x ≡ frame_size * i)
    × (i < n)
    × (time i < bound)
    × ((k : ℕ) → k < n → time i ≤ time k)
    × ((k : ℕ) → k < i → time i < time k)

-- A statement about the numbers below j and about j.
pub up_to : (P : ℕ → Type 0) (j : ℕ) → ((k : ℕ) → k < j → P k) → P j → (k : ℕ) → k < j + 1 → P k
up_to P j below here k h = elim (ℕ_discrete k j) [
  | yes e ↦ subst P (sym e) here
  | no ne ↦ below k (omega (arith, ne))
]

module _ (time : ℕ → ℕ) (start : ℕ) where
  -- The variables of the loop behind `j` frames.
  abbrev Searched : ℕ → Option ℕ → ℕ → Type 0
  Searched j none bound = (bound ≡ start) × ((k : ℕ) → k < j → start ≤ time k)
  Searched j (some x) bound =
      (i : ℕ) × (x ≡ frame_size * i)
      × (i < j)
      × (bound ≡ time i)
      × (time i < start)
      × ((k : ℕ) → k < j → time i ≤ time k)
      × ((k : ℕ) → k < i → time i < time k)

  search_step :
      (j : ℕ) (best : Option ℕ) (bound : ℕ)
      → Searched j best bound
      → Searched
          (j + 1)
          (if ltb (time j) bound then some (frame_size * j) else best)
          (if ltb (time j) bound then time j else bound)
  search_step j none bound (reached, least) = elim (Bool-cases (ltb (time j) bound)) [
    | inl e ↦
        let less : time j < start = ground arith in
        rw e (
          j,
          refl,
          omega arith,
          refl,
          less,
          up_to (λ k. time j ≤ time k) j (λ k h. omega (arith, least k h)) (omega arith),
          λ k h. omega (arith, least k h),
        )
    | inr e ↦
        let more : start ≤ time j = ground arith in
        rw e (reached, up_to (λ k. start ≤ time k) j least more)
  ]
  search_step j (some x) bound (i, begins, below, reached, early, least, first) =
      elim (Bool-cases (ltb (time j) bound)) [
        | inl e ↦
            let less : time j < time i = ground arith in
            rw e (
              j,
              refl,
              omega arith,
              refl,
              omega arith,
              up_to (λ k. time j ≤ time k) j (λ k h. omega (arith, least k h)) (omega arith),
              λ k h. omega (arith, least k h),
            )
        | inr e ↦
            let more : time i ≤ time j = ground arith in
            rw e (
              i,
              begins,
              omega arith,
              reached,
              early,
              up_to (λ k. time i ≤ time k) j least more,
              first,
            )
      ]

  least_loop-Searched :
      (F V n j : ℕ) (best : Option ℕ) (bound : ℕ)
      → Searched j best bound
      → Least time (j + n) start (least_loop F V time j n best bound)
  unfolding least_loop
  least_loop-Searched F V zero j none bound s = λ k h. s.1 k (omega arith)
  least_loop-Searched F V zero j (some x) bound (i, begins, below, reached, early, least, first) =
      (i, begins, omega arith, early, λ k h. least k (omega arith), first)
  least_loop-Searched F V (suc n) j best bound s =
      subst (λ k. Least time k start (least_loop F V time j (suc n) best bound)) (omega arith)
        (least_loop-Searched F V n (j + 1) _ _ (search_step j best bound s))

  least_loop-Least : (F V n : ℕ) → Least time n start (least_loop F V time 0 n none start)
  least_loop-Least F V n =
      subst (λ k. Least time k start (least_loop F V time 0 n none start)) (omega arith)
        (least_loop-Searched F V n 0 none start (refl, λ k h. absurd (omega arith)))

module _ (F V : ℕ) (m : Memory) where
  -- `find_lru_slot` returns the first of the frames whose first lines were accessed least
  -- recently, and -1 exactly if no frame has an access time below 9999.
  pub find_lru_slot-Least :
      Least (λ j. (at m (frame_size * j)).accessed) (frames F V) 9999 (find_lru_slot F V m)
  unfolding find_lru_slot
  find_lru_slot-Least = least_loop-Least _ 9999 F V (frames F V)

  -- `find_fifo_slot` does the same for the time at which the first line was loaded.
  pub find_fifo_slot-Least :
      Least (λ j. (at m (frame_size * j)).age) (frames F V) 9999 (find_fifo_slot F V m)
  unfolding find_fifo_slot
  find_fifo_slot-Least = least_loop-Least _ 9999 F V (frames F V)
