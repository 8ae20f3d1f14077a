-- ===== src/A3/Kernel/Endless.antt =====
-- A process of which a line is left that its file does not have (run_proc_RR of a3/kernel.c).
use mathlib.Core.Path.{subst}
use comp310_w.Prelude.{
  ℕ, zero, suc, ◌+◌, ◌<◌, ◌==◌, ltb, not, true, false, Option, List, [], ◌∷◌, ◌++◌, Str, get_or,
  ◌≡◌, ◌≢◌, refl, sym, ◌∙◌, ap, if_true, if_false, arith, Bool-cases, inl, inr,
}
use comp310_w.Prelude.Int.{ℤ, pos}
use comp310_w.A3.Memory.{Cell}
use comp310_w.A3.Pcb.{Pcb, done_from, pcb_done}
use comp310_w.A3.List.{Outcome, done, exited, crashed, no_fuel, bind}
use comp310_w.A3.Kernel.{
  Machine, is_one, open_page, pcb_at, cpu_run, make_present, run_proc, run_next, turn_from, turn,
  queue_done_from, queue_done, run_proc_rr,
}
use comp310_w.A3.Kernel.Turns.{Post, Post-bind, Post-if, make_present-queue, HasQueue}
use comp310_w.A3.Kernel.Pages.{bit, AtEnd, Keeps, make_present-Keeps}

abbrev next_page : Pcb → ℕ
next_page a = open_page a.program_counter 0 a.page_table_size

-- One line is left by the size; the file is at its end; the line that is next is not in memory.
pub record IsStuck (a : Pcb) : Type 0 where
  pub size : a.size ≡ 1
  pub at_end : AtEnd a
  pub inside : next_page a < a.page_table_size
  pub invalid : bit a (next_page a) (get_or a.program_counter (next_page a) 0) ≡ 0

Keeps-IsStuck : (a b : Pcb) → Keeps a b → IsStuck a → IsStuck b
Keeps-IsStuck a b k stuck =
    let same : next_page b ≡ next_page a =
      ap (λ (c : List ℕ). open_page c 0 b.page_table_size) (k.counters)
      ∙ ap (open_page a.program_counter 0) (k.pages) in
    record {
      size = k.size ∙ stuck.size;
      at_end = k.at_end (stuck.at_end);
      inside = let o = stuck.inside in let p = k.pages in omega (arith, same, p, o);
      invalid =
          ap (λ n. bit b n (get_or b.program_counter n 0)) same
          ∙ ap (λ (c : List ℕ). bit b (next_page a) (get_or c (next_page a) 0)) (k.counters)
          ∙ k.bits (stuck.at_end) (next_page a) (get_or a.program_counter (next_page a) 0)
              (stuck.invalid);
    }

open_page-done_from :
    (counters : List ℕ) (i n : ℕ) → open_page counters i n < i + n → done_from counters i n ≡ false
unfolding open_page done_from
open_page-done_from counters i zero h = absurd (omega arith)
open_page-done_from counters i (suc n) h = elim (Bool-cases (get_or counters i 0 == 3)) [
  | inr other ↦ if_false _ _ other
  | inl three ↦
      let closed : not (get_or counters i 0 == 3) ≡ false = ground (arith, three) in
      let further : open_page counters i (suc n) ≡ open_page counters (i + 1) n =
        if_false _ _ closed in
      if_true _ _ three ∙ open_page-done_from counters (i + 1) n (omega (arith, h, further))
]

Post-both :
    {A : Type 0} (P Q : A → Type 0) (o : Outcome A) → Post P o → Post Q o → Post (λ a. P a × Q a) o
Post-both P Q (done a) p q = (p, q)
Post-both P Q exited p q = tt
Post-both P Q crashed p q = tt
Post-both P Q no_fuel p q = tt

bind-ne :
    {A B : Type 0} (P : A → Type 0) (o : Outcome A) (f : A → Outcome B) (b : B)
    → Post P o
    → ((a : A) → P a → f a ≢ done b)
    → bind o f ≢ done b
bind-ne P (done a) f b p h = h a p
bind-ne P exited f b p h = λ e. cc
bind-ne P crashed f b p h = λ e. cc
bind-ne P no_fuel f b p h = λ e. cc

module _ {W : Type 0} (F V : ℕ) (parse : Str → List Cell × W → ℤ × (List Cell × W))
    (pid_name : ℕ → Str) (file_of : Str → W → Option Str) (p : ℕ) where
  abbrev pub StuckMachine : Machine W → Type 0
  StuckMachine m = HasQueue (p ∷ []) m × IsStuck (pcb_at p m)

  cpu_run-fault :
      (i : ℕ) (m : Machine W)
      → bit (pcb_at p m) i (get_or (pcb_at p m).program_counter i 0) ≡ 0
      → cpu_run F V parse pid_name file_of p i m ≡ (pos 1, m)
  unfolding cpu_run
  cpu_run-fault i m e =
      let fault : (bit (pcb_at p m) i (get_or (pcb_at p m).program_counter i 0) == 0) ≡ true =
        ground (arith, e) in
      if_true _ _ fault

  run_next-stuck :
      (m : Machine W)
      → m.queue ≡ []
      → IsStuck (pcb_at p m)
      → Post (λ (r : ℕ × Machine W). StuckMachine r.1) (run_next F V parse pid_name file_of p m)
  unfolding run_next run_proc
  run_next-stuck m empty stuck =
      let i = next_page (pcb_at p m) in
      let inside : ltb i (pcb_at p m).page_table_size ≡ true =
        let o = stuck.inside in ground (arith, o) in
      let fault = cpu_run-fault i m (stuck.invalid) in
      let ran = cpu_run F V parse pid_name file_of p i m in
      let same : ran.1 ≡ m = ap (λ (r : ℤ × Machine W). r.1) fault in
      let one : is_one ran.0 ≡ true = ap (λ (r : ℤ × Machine W). is_one r.0) fault in
      let still : IsStuck (pcb_at p ran.1) = subst (λ n. IsStuck (pcb_at p n)) (sym same) stuck in
      let P : ℕ × Machine W → Type 0 = λ r. StuckMachine r.1 in
      let Q : Machine W → Type 0 =
        λ n. HasQueue ran.1.queue n × Keeps (pcb_at p ran.1) (pcb_at p n) in
      let o = make_present F V parse pid_name file_of p i ran.1 in
      subst (Post P) (sym (if_true _ _ inside)) (
        Post-if P (is_one ran.0) _ _
          (λ h.
            Post-bind Q P o _
              (Post-both (HasQueue ran.1.queue) (λ n. Keeps (pcb_at p ran.1) (pcb_at p n)) o
                (make_present-queue F V parse pid_name file_of p i ran.1)
                (make_present-Keeps F V parse pid_name file_of p i ran.1 (still.at_end)))
              (λ n k. (
                ap (λ q. q ++ p ∷ []) (k.0 ∙ ap (λ (l : Machine W). l.queue) same ∙ empty),
                Keeps-IsStuck (pcb_at p ran.1) (pcb_at p n) k.1 still,
              )))
          (λ h. let wrong : true ≡ false = sym one ∙ h in cc))

  turn-stuck :
      (m : Machine W) → StuckMachine m → Post StuckMachine (turn F V parse pid_name file_of m)
  unfolding turn_from
  turn-stuck m (queue, stuck) =
      let m1 : Machine W = record m { queue = [] } in
      let size = stuck.size in
      let few : ltb 1 (pcb_at p m).size ≡ false = ground (arith, size) in
      let one : ((pcb_at p m).size == 1) ≡ true = ground (arith, size) in
      subst (λ q. Post StuckMachine (turn_from F V parse pid_name file_of q m)) (sym queue)
        (subst (Post StuckMachine) (sym (if_false _ _ few ∙ if_true _ _ one)) (
          Post-bind (λ (r : ℕ × Machine W). StuckMachine r.1) StuckMachine
            (run_next F V parse pid_name file_of p m1) _ (run_next-stuck m1 refl stuck) (λ r h. h)))

  queue_done-stuck : (m : Machine W) → StuckMachine m → queue_done m ≡ false
  unfolding queue_done_from pcb_done
  queue_done-stuck m (queue, stuck) =
      let a = pcb_at p m in
      let open_one = stuck.inside in
      let undone : done_from a.program_counter 0 a.page_table_size ≡ false =
        open_page-done_from a.program_counter 0 a.page_table_size (omega (arith, open_one)) in
      let busy : not (done_from a.program_counter 0 a.page_table_size) ≡ true = ap not undone in
      ap (queue_done_from m) queue ∙ if_true _ _ busy

  -- If the ready queue holds one process only, of which one line is left by its size, but whose file has
  -- been read to its end, and the line that its program counters name next is not in memory, then
  -- `run_proc_RR` does not return, whatever the fuel, the memory and the cache of pages.
  pub run_proc_rr-endless :
      (fuel : ℕ) (m m' : Machine W)
      → StuckMachine m
      → run_proc_rr F V parse pid_name file_of fuel m ≢ done m'
  unfolding run_proc_rr
  run_proc_rr-endless zero m m' stuck = λ e. cc
  run_proc_rr-endless (suc k) m m' stuck = λ e.
      let busy : not (queue_done m) ≡ true = ap not (queue_done-stuck m stuck) in
      bind-ne StuckMachine (turn F V parse pid_name file_of m)
        (run_proc_rr F V parse pid_name file_of k) m' (turn-stuck m stuck)
        (λ n h. run_proc_rr-endless k n m' h) (sym (if_true _ _ busy) ∙ e)
