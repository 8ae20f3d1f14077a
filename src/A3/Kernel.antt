-- ===== src/A3/Kernel.antt =====
-- The processor and the kernel of the third shell (a3/cpu.c, a3/kernel.c). The linked lists are plain
-- lists here, which those of A3.List stand for; a process is named by its address among all that
-- have been created, and a page by the process and its place in the page table.
pub mod Turns
pub mod Pages
pub mod Endless
mod Tests
use mathlib.Core.Option
use comp310_w.Prelude.{
  ℕ, zero, suc, ◌+◌, ◌-◌, ◌==◌, ltb, if◌then◌else◌, not, Bool, true, false, Option, none, some,
  List, [], ◌∷◌, ◌++◌, Str, get_or, set, length,
}
use comp310_w.Prelude.Int.{ℤ, pos, negsuc}
use comp310_w.Prelude.Stream.{Stream, opened}
use comp310_w.A3.Memory.{Cell, mem_get_value_at}
use comp310_w.A3.Pcb.{
  Page, Pcb, Reading, page_init, pcb_done, load_page, page_evict, pcb_init, free_pcb,
}
use comp310_w.A3.List.{Outcome, done, exited, crashed, no_fuel, bind}
use comp310_w.A3.List.Values.{remove_first}

-- What is at an address that was never given out.
abbrev pub no_pcb : Pcb
no_pcb = record {
  pid = 0;
  size = 0;
  program_counter = [];
  page_table = [];
  page_table_size = 0;
  source_file = opened [];
}

-- `QUEUE`, `LRU_CACHE`, `ALL_PCB` and `PID_counter`, the processes, the memory, and the rest of the
-- program's state.
pub record Machine (W : Type 0) : Type 0 where
  pub pcbs : List Pcb
  pub queue : List ℕ
  pub lru_cache : List (ℕ × ℕ)
  pub all_pcb : List ℕ
  pub pid_counter : ℕ
  pub memory : List Cell
  pub world : W

abbrev pub is_one : ℤ → Bool
is_one (pos n) = n == 1
is_one (negsuc n) = false

-- The last element, and those before.
unfoldable pub split_last : {A : Type 0} → List A → Option (List A × A)
split_last [] = none
split_last (x ∷ xs) = elim (split_last xs) [ none ↦ some ([], x) | some (ys, y) ↦ some (x ∷ ys, y) ]

-- What follows a search, or what is done if nothing was found.
abbrev pub or_else : {A B : Type 0} → Option A → Outcome B → (A → Outcome B) → Outcome B
or_else none b f = b
or_else (some a) b f = f a

-- The first page whose program counter is not 3, from page `i` on, of `n`.
unfoldable pub open_page : List ℕ → ℕ → ℕ → ℕ
open_page counters i zero = i
open_page counters i (suc n) =
    let further = open_page counters (i + 1) n in
    if not (get_or counters i 0 == 3) then i else further

-- The pages of a new process from page `i` on, each in front of the cache.
unfoldable pub cache_pages : ℕ → ℕ → ℕ → List (ℕ × ℕ) → List (ℕ × ℕ)
cache_pages p i zero lru = lru
cache_pages p i (suc n) lru = cache_pages p (i + 1) n ((p, i) ∷ lru)

module _ {W : Type 0} where
  abbrev pub pcb_at : ℕ → Machine W → Pcb
  pcb_at p m = get_or m.pcbs p no_pcb

  abbrev pub put_pcb : ℕ → Pcb → Machine W → Machine W
  put_pcb p pcb m = record m { pcbs = set m.pcbs p pcb }

  abbrev pub page_at : ℕ → ℕ → Machine W → Page
  page_at p i m = get_or (pcb_at p m).page_table i (page_init 0 0)

  abbrev pub put_page : ℕ → ℕ → Page → Machine W → Machine W
  put_page p i page m =
      put_pcb p (record (pcb_at p m) { page_table = set (pcb_at p m).page_table i page }) m

  -- `PAGE_equal` on two entries of the cache.
  abbrev pub same_page : Machine W → ℕ × ℕ → ℕ × ℕ → Bool
  same_page m (p, i) (q, j) = get_or (page_at p i m).index 0 0 == get_or (page_at q j m).index 0 0

  -- The search in `ALL_PCB` for a process number. Behind the last process it uses data that is not set.
  unfoldable pub find_pcb : Machine W → ℕ → List ℕ → Option ℕ
  find_pcb m pid [] = none
  find_pcb m pid (p ∷ ps) =
      let rest = find_pcb m pid ps in if (pcb_at p m).pid == pid then some p else rest

  unfoldable pub queue_done_from : Machine W → List ℕ → Bool
  queue_done_from m [] = true
  queue_done_from m (p ∷ ps) =
      let rest = queue_done_from m ps in if not (pcb_done (pcb_at p m)) then false else rest

  abbrev pub queue_done : Machine W → Bool
  queue_done m = queue_done_from m m.queue

  -- `kernel_setup`
  abbrev pub kernel_setup : List Cell → W → Machine W
  kernel_setup memory w = record {
    pcbs = [];
    queue = [];
    lru_cache = [];
    all_pcb = [];
    pid_counter = 1;
    memory = memory;
    world = w;
  }

  -- What `run_proc_RR` does when the queue is done.
  unfoldable pub free_all : Machine W → List ℕ → List Cell → List Cell
  free_all m [] cells = cells
  free_all m (p ∷ ps) cells = free_all m ps (free_pcb (pcb_at p m) cells)

  abbrev pub finish : Machine W → Machine W
  finish m = record m {
    memory = free_all m m.all_pcb m.memory;
    queue = [];
    lru_cache = [];
    all_pcb = [];
  }

  -- `parseInput` on a line that does not itself run scripts, what is printed of a number, the files.
  module _ (frame_store_size var_store_size : ℕ) (parse : Str → List Cell × W → ℤ × (List Cell × W))
      (pid_name : ℕ → Str) (file_of : Str → W → Option Str) where
    -- `cpu_run` on the line that the program counter of page `i` names.
    unfoldable pub cpu_run : ℕ → ℕ → Machine W → ℤ × Machine W
    cpu_run p i m =
        let pcb = pcb_at p m in
        let counter = get_or pcb.program_counter i 0 in
        let page = page_at p i m in
        let called =
          parse (mem_get_value_at (get_or page.index counter 0) m.memory) (m.memory, m.world) in
        if get_or page.valid_bit counter 0 == 0 then (pos 1, m) else (
          called.0,
          put_pcb p
              (record pcb {
                program_counter = set pcb.program_counter i (counter + 1);
                size = pcb.size - 1;
              })
              (record m { memory = called.1.0; world = called.1.1 }),
        )

    -- `load_PAGE`; `none` is the return of 1.
    unfoldable pub load : ℕ → ℕ → Machine W → Option (Machine W)
    load p i m =
        let pcb = pcb_at p m in
        Option.map
          (λ (r : Reading).
            put_pcb p
              (record pcb { page_table = set pcb.page_table i r.page; source_file = r.source_file })
              (record m { memory = r.memory }))
          (load_page frame_store_size var_store_size (pid_name pcb.pid) (page_at p i m)
            pcb.source_file m.memory)

    -- The least recently used page goes.
    unfoldable pub evict : Machine W → Outcome (Machine W)
    evict m = or_else (split_last m.lru_cache) exited (λ (cache : List (ℕ × ℕ) × (ℕ × ℕ)).
        let victim = page_at cache.1.0 cache.1.1 m in
        or_else (find_pcb m victim.page_pid m.all_pcb) crashed (λ r.
          let out =
            page_evict frame_store_size var_store_size (page_at r victim.page_index m) m.memory in
          done (
            put_page r victim.page_index out.1.0
              (record m { lru_cache = cache.0; memory = out.1.1 }))))

    -- The page is loaded; whether the second attempt succeeds is not looked at.
    unfoldable pub make_present : ℕ → ℕ → Machine W → Outcome (Machine W)
    make_present p i m =
        or_else (load p i m)
          (bind (evict m) (λ m1. or_else (load p i m1) (done m1) (λ m2. done m2))) (λ m1. done m1)

    -- `run_proc`
    unfoldable pub run_proc : ℕ → ℕ → Machine W → Outcome (ℕ × Machine W)
    run_proc p i m =
        let ran = cpu_run p i m in
        if is_one ran.0
        then bind (make_present p i ran.1) (λ m'.
          done (1, record m' { lru_cache = (p, i) ∷ m'.lru_cache; queue = m'.queue ++ p ∷ [] }))
        else or_else (remove_first (same_page ran.1) (p, i) ran.1.lru_cache) crashed
            (λ (taken : (ℕ × ℕ) × List (ℕ × ℕ)).
              done (0, record (ran.1) { lru_cache = taken.0 ∷ taken.1 }))

    -- The page is looked for, and its line runs; behind the page table there is none.
    unfoldable pub run_next : ℕ → Machine W → Outcome (ℕ × Machine W)
    run_next p m =
        let pcb = pcb_at p m in
        let i = open_page pcb.program_counter 0 pcb.page_table_size in
        if ltb i pcb.page_table_size then run_proc p i m else crashed

    -- The second line of a turn, and the end of the turn.
    unfoldable pub second_line : ℕ → ℕ × Machine W → Outcome (Machine W)
    second_line p (ret, m) =
        if ret == 1
        then done m
        else bind (run_next p m)
            (λ r. done (if r.0 == 1 then r.1 else record (r.1) { queue = r.1.queue ++ p ∷ [] }))

    -- One round of the loop of `run_proc_RR`, from what is in the queue.
    unfoldable pub turn_from : List ℕ → Machine W → Outcome (Machine W)
    turn_from [] m = exited
    turn_from (p ∷ ps) m =
        let m1 : Machine W = record m { queue = ps } in
        let size = (pcb_at p m1).size in
        if ltb 1 size
        then bind (run_next p m1) (second_line p)
        else if size == 1
        then bind (run_next p m1) (λ r. done r.1)
        else done m1

    abbrev pub turn : Machine W → Outcome (Machine W)
    turn m = turn_from m.queue m

    -- `run_proc_RR`
    unfoldable pub run_proc_rr : ℕ → Machine W → Outcome (Machine W)
    run_proc_rr zero m = no_fuel
    run_proc_rr (suc k) m =
        if not (queue_done m) then bind (turn m) (run_proc_rr k) else done (finish m)

    -- `new_proc`, which ends the program when the process cannot be made.
    unfoldable pub new_proc : Str → Machine W → Outcome (Machine W)
    new_proc script m =
        elim (pcb_init frame_store_size var_store_size pid_name m.pid_counter
          (file_of script m.world) m.memory) [
            | none ↦ exited
            | some (pcb, memory) ↦
                let p = length m.pcbs in
                let page_limit = if ltb pcb.page_table_size 2 then pcb.page_table_size else 2 in
                done (record m {
                  pcbs = m.pcbs ++ pcb ∷ [];
                  pid_counter = m.pid_counter + 1;
                  memory = memory;
                  all_pcb = m.all_pcb ++ p ∷ [];
                  queue = m.queue ++ p ∷ [];
                  lru_cache = cache_pages p 0 page_limit m.lru_cache;
                })
          ]
