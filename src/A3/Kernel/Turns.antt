-- ===== src/A3/Kernel/Turns.antt =====
-- What a turn of `run_proc_RR` of a3/kernel.c does to the ready queue.
use mathlib.Core.Path.{subst}
use mathlib.Core.Bool.{false≢true}
use mathlib.Core.Option
use mathlib.Core.Option.{some-injective}
use comp310_w.Prelude.{
  ℕ, ◌==◌, ltb, ◌||◌, if◌then◌else◌, Bool, true, false, Option, none, some, List, [], ◌∷◌, ◌++◌,
  Str, get_or, ◌≡◌, refl, sym, ◌∙◌, ap, if_true, if_false, arith, Bool-cases, Option-cases, ◌⊎◌,
  inl, inr,
}
use comp310_w.Prelude.Int.{ℤ}
use comp310_w.A3.Memory.{Cell, mem_get_value_at}
use comp310_w.A3.Pcb.{load_page}
use comp310_w.A3.List.{Outcome, done, exited, crashed, no_fuel, bind}
use comp310_w.A3.List.Values.{remove_first}
use comp310_w.A3.Kernel.{
  Machine, or_else, is_one, split_last, open_page, pcb_at, page_at, same_page, find_pcb, cpu_run,
  load, evict, make_present, run_proc, run_next, second_line, turn_from, turn,
}

-- A property of what a call returns.
abbrev pub Post : {A : Type 0} → (A → Type 0) → Outcome A → Type 0
Post P (done a) = P a
Post P exited = Unit
Post P crashed = Unit
Post P no_fuel = Unit

pub Post-bind :
    {A B : Type 0} (P : A → Type 0) (Q : B → Type 0) (o : Outcome A) (f : A → Outcome B)
    → Post P o
    → ((a : A) → P a → Post Q (f a))
    → Post Q (bind o f)
Post-bind P Q (done a) f p h = h a p
Post-bind P Q exited f p h = tt
Post-bind P Q crashed f p h = tt
Post-bind P Q no_fuel f p h = tt

pub Post-if :
    {A : Type 0} (P : A → Type 0) (b : Bool) (x y : Outcome A)
    → (b ≡ true → Post P x)
    → (b ≡ false → Post P y)
    → Post P (if b then x else y)
Post-if P true x y h k = h refl
Post-if P false x y h k = k refl

pub Post-or_else :
    {A B : Type 0} (P : B → Type 0) (o : Option A) (b : Outcome B) (f : A → Outcome B)
    → Post P b
    → ((a : A) → o ≡ some a → Post P (f a))
    → Post P (or_else o b f)
Post-or_else P none b f h k = h
Post-or_else P (some a) b f h k = k a refl

-- Three branches, with a property of each.
Post-three :
    {A : Type 0} (P Q R : A → Type 0) (a b : Bool) (x y z : Outcome A)
    → Post P x
    → Post Q y
    → Post R z
    → Post (λ m. if a then P m else if b then Q m else R m) (if a then x else if b then y else z)
Post-three P Q R true b x y z h k l = h
Post-three P Q R false true x y z h k l = k
Post-three P Q R false false x y z h k l = l

-- The ready queue of a machine is `q`.
abbrev pub HasQueue : {W : Type 0} → List ℕ → Machine W → Type 0
HasQueue q m = m.queue ≡ q

-- The queue is still `q`, or, if `back`, the process is at its tail again.
abbrev pub AfterLine : {W : Type 0} → ℕ → List ℕ → Bool → ℕ × Machine W → Type 0
AfterLine p q back (ret, m) =
    ((back ≡ false) × (ret ≡ 0) × HasQueue q m)
    ⊎ ((back ≡ true) × (ret ≡ 1) × HasQueue (q ++ p ∷ []) m)

AfterLine-if :
    {W : Type 0} (p : ℕ) (q : List ℕ) (back : Bool) (r : ℕ × Machine W)
    → AfterLine p q back r
    → if back then HasQueue (q ++ p ∷ []) r.1 else HasQueue q r.1
AfterLine-if p q true r after = elim after [
  | inl (wrong, r0, h) ↦ absurd (false≢true (sym wrong))
  | inr (b, r1, h) ↦ h
]
AfterLine-if p q false r after = elim after [
  | inl (b, r0, h) ↦ h
  | inr (wrong, r1, h) ↦ absurd (false≢true wrong)
]

module _ {W : Type 0} (F V : ℕ) (parse : Str → List Cell × W → ℤ × (List Cell × W))
    (pid_name : ℕ → Str) (file_of : Str → W → Option Str) where
  -- The page of the next line of a process.
  abbrev pub next_page : ℕ → Machine W → ℕ
  next_page p m = let pcb = pcb_at p m in open_page pcb.program_counter 0 pcb.page_table_size

  -- The line that the counter of page `i` names cannot run, since its valid bit is 0, or `parseInput`
  -- returns 1 on it.
  abbrev pub faults : ℕ → ℕ → Machine W → Bool
  faults p i m =
      let counter = get_or (pcb_at p m).program_counter i 0 in
      let page = page_at p i m in
      let text = mem_get_value_at (get_or page.index counter 0) m.memory in
      (get_or page.valid_bit counter 0 == 0) || is_one (parse text (m.memory, m.world)).0

  cpu_run-faults :
      (p i : ℕ) (m : Machine W) → is_one (cpu_run F V parse pid_name file_of p i m).0 ≡ faults p i m
  unfolding cpu_run
  cpu_run-faults p i m =
      let counter = get_or (pcb_at p m).program_counter i 0 in
      let page = page_at p i m in
      let text = mem_get_value_at (get_or page.index counter 0) m.memory in
      let one = is_one (parse text (m.memory, m.world)).0 in
      elim (Bool-cases (get_or page.valid_bit counter 0 == 0)) [
        | inl fault ↦
            ap (λ (r : ℤ × Machine W). is_one r.0) (if_true _ _ fault)
            ∙ sym (ap (λ (b : Bool). b || one) fault)
        | inr valid ↦
            ap (λ (r : ℤ × Machine W). is_one r.0) (if_false _ _ valid)
            ∙ sym (ap (λ (b : Bool). b || one) valid)
      ]

  cpu_run-queue :
      (p i : ℕ) (m : Machine W) → (cpu_run F V parse pid_name file_of p i m).1.queue ≡ m.queue
  unfolding cpu_run
  cpu_run-queue p i m =
      let page = page_at p i m in
      elim (Bool-cases (get_or page.valid_bit (get_or (pcb_at p m).program_counter i 0) 0 == 0)) [
        | inl fault ↦ ap (λ (r : ℤ × Machine W). r.1.queue) (if_true _ _ fault)
        | inr valid ↦ ap (λ (r : ℤ × Machine W). r.1.queue) (if_false _ _ valid)
      ]

  load-queue :
      (p i : ℕ) (m m' : Machine W)
      → load F V parse pid_name file_of p i m ≡ some m'
      → m'.queue ≡ m.queue
  unfolding load
  load-queue p i m m' e =
      elim (Option-cases (
        load_page F V (pid_name (pcb_at p m).pid) (page_at p i m) (pcb_at p m).source_file
          m.memory)) [
            | inl full ↦ let wrong : none ≡ some m' = sym (ap (Option.map _) full) ∙ e in cc
            | inr (r, there) ↦
                ap (λ (n : Machine W). n.queue)
                  (sym (some-injective _ m' (sym (ap (Option.map _) there) ∙ e)))
          ]

  evict-queue : (m : Machine W) → Post (HasQueue m.queue) (evict F V parse pid_name file_of m)
  unfolding evict
  evict-queue m =
      Post-or_else (HasQueue m.queue) (split_last m.lru_cache) exited _ tt (λ cache found.
        let victim = page_at cache.1.0 cache.1.1 m in
        Post-or_else (HasQueue m.queue) (find_pcb m victim.page_pid m.all_pcb) crashed _ tt
          (λ r there. refl))

  pub make_present-queue :
      (p i : ℕ) (m : Machine W)
      → Post (HasQueue m.queue) (make_present F V parse pid_name file_of p i m)
  unfolding make_present
  make_present-queue p i m =
      Post-or_else (HasQueue m.queue) (load F V parse pid_name file_of p i m) _ _
        (Post-bind (HasQueue m.queue) (HasQueue m.queue) (evict F V parse pid_name file_of m) _
          (evict-queue m)
          (λ m1 same.
            Post-or_else (HasQueue m.queue) (load F V parse pid_name file_of p i m1) (done m1) _
              same (λ m2 e. load-queue p i m1 m2 e ∙ same)))
        (λ m1 e. load-queue p i m m1 e)

  run_proc-queue :
      (p i : ℕ) (m : Machine W)
      → Post (AfterLine p m.queue (faults p i m)) (run_proc F V parse pid_name file_of p i m)
  unfolding run_proc
  run_proc-queue p i m =
      let ran = cpu_run F V parse pid_name file_of p i m in
      let same = cpu_run-queue p i m in
      let back = faults p i m in
      let tested = cpu_run-faults p i m in
      Post-if (AfterLine p m.queue back) (is_one ran.0) _ _
        (λ fault.
          Post-bind (HasQueue ran.1.queue) (AfterLine p m.queue back)
            (make_present F V parse pid_name file_of p i ran.1) _ (make_present-queue p i ran.1)
            (λ m' h. inr (sym tested ∙ fault, refl, ap (λ q. q ++ p ∷ []) (h ∙ same))))
        (λ ok.
          Post-or_else (AfterLine p m.queue back)
            (remove_first (same_page ran.1) (p, i) ran.1.lru_cache) crashed _ tt
            (λ taken e. inl (sym tested ∙ ok, refl, same)))

  run_next-queue :
      (p : ℕ) (m : Machine W)
      → Post
          (AfterLine p m.queue (faults p (next_page p m) m))
          (run_next F V parse pid_name file_of p m)
  unfolding run_next
  run_next-queue p m =
      let pcb = pcb_at p m in
      let i = open_page pcb.program_counter 0 pcb.page_table_size in
      Post-if (AfterLine p m.queue (faults p i m)) (ltb i pcb.page_table_size) _ _
        (λ h. run_proc-queue p i m) (λ h. tt)

  second_line-queue :
      (p : ℕ) (q : List ℕ) (back : Bool) (r : ℕ × Machine W)
      → AfterLine p q back r
      → Post (HasQueue (q ++ p ∷ [])) (second_line F V parse pid_name file_of p r)
  unfolding second_line
  second_line-queue p q back (ret, m) after =
      Post-if (HasQueue (q ++ p ∷ [])) (ret == 1) _ _
        (λ fault. elim after [
          | inl (_, ended, h) ↦ absurd (ground (arith, ended, fault))
          | inr (_, at_fault, h) ↦ h
        ])
        (λ ran. elim after [
          | inr (_, at_fault, h) ↦ absurd (ground (arith, at_fault, ran))
          | inl (_, ended, h) ↦
              Post-bind (AfterLine p m.queue (faults p (next_page p m) m)) (HasQueue (q ++ p ∷ []))
                (run_next F V parse pid_name file_of p m) _ (run_next-queue p m)
                (λ r after'. elim after' [
                  | inl (_, ended', h') ↦
                      let no_fault : (r.0 == 1) ≡ false = ground (arith, ended') in
                      ap (λ (n : Machine W). n.queue) (if_false _ _ no_fault)
                      ∙ ap (λ l. l ++ p ∷ []) (h' ∙ h)
                  | inr (_, fault', h') ↦
                      let fault : (r.0 == 1) ≡ true = ground (arith, fault') in
                      ap (λ (n : Machine W). n.queue) (if_true _ _ fault)
                      ∙ h'
                      ∙ ap (λ l. l ++ p ∷ []) h
                ])
        ])

  -- The queue after a turn, from the lines that are left before it, and whether the next line faults.
  abbrev pub Turned : ℕ → List ℕ → ℕ → Bool → Machine W → Type 0
  Turned p ps size back m =
      if ltb 1 size
      then HasQueue (ps ++ p ∷ []) m
      else if size == 1
      then (if back then HasQueue (ps ++ p ∷ []) m else HasQueue ps m)
      else HasQueue ps m

  -- In a turn of `run_proc_RR` that returns, the process at the head of the ready queue, if more than
  -- one of its lines is left, goes to the tail of the queue exactly once, whether its two lines ran or
  -- one of them needed a page. If one is left, it goes to the tail if the valid bit of that line is 0
  -- or the line runs and `parseInput` returns 1 on it, and leaves the queue otherwise. If no line is
  -- left, it leaves the queue. The order of the other processes stays.
  pub turn-queue :
      (m : Machine W) (p : ℕ) (ps : List ℕ)
      → m.queue ≡ p ∷ ps
      → Post
          (Turned p ps (pcb_at p m).size (faults p (next_page p m) m))
          (turn F V parse pid_name file_of m)
  unfolding turn_from
  turn-queue m p ps e =
      let m1 : Machine W = record m { queue = ps } in
      let size = (pcb_at p m).size in
      let back = faults p (next_page p m) m in
      let next = run_next-queue p m1 in
      subst (λ q. Post (Turned p ps size back) (turn_from F V parse pid_name file_of q m)) (sym e)
        (Post-three (HasQueue (ps ++ p ∷ []))
          (λ m'. if back then HasQueue (ps ++ p ∷ []) m' else HasQueue ps m') (HasQueue ps)
          (ltb 1 size) (size == 1) _ _ _
          (Post-bind (AfterLine p ps back) (HasQueue (ps ++ p ∷ []))
            (run_next F V parse pid_name file_of p m1) _ next (second_line-queue p ps back))
          (Post-bind (AfterLine p ps back)
            (λ m'. if back then HasQueue (ps ++ p ∷ []) m' else HasQueue ps m')
            (run_next F V parse pid_name file_of p m1) _ next
            (λ r after. AfterLine-if p ps back r after))
          refl)
