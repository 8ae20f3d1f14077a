-- ===== src/A2/Store.antt =====
-- The memory in which the ready queue of the second assignment lives: nodes at addresses and the
-- global `head` (a2/ready_queue.h, a2/ready_queue.c), and commands that read and write them.
pub mod Chain
use comp310_w.Prelude.{ℕ, ◌==◌, if◌then◌else◌, Option, none, some}
use comp310_w.A2.Pcb.{Pcb}

abbrev pub Ptr : Type 0
Ptr = ℕ

abbrev pub null : Ptr
null = 0

-- `QueueNode`. Each node owns its block: `process_initialize` allocates both together.
pub record QueueNode : Type 0 where
  pub pcb : Pcb
  pub next : Ptr

abbrev pub node : Pcb → Ptr → QueueNode
node p q = record { pcb = p; next = q }

abbrev pub Cells : Type 0
Cells = Ptr → Option QueueNode

-- The heap cells and the global variable `head`.
pub record Store : Type 0 where
  pub head : Ptr
  pub cells : Cells

-- A command ends, reads or writes where no node is, or is out of fuel.
pub data Outcome (A : Type 0) : Type 0 where
  done : A → Store → Outcome A
  crash : Outcome A
  no_fuel : Outcome A

abbrev pub Cmd : Type 0 → Type 0
Cmd A = Store → Outcome A

module _ {A B : Type 0} where
  abbrev pub chain : Outcome A → (A → Cmd B) → Outcome B
  chain (done a s) k = k a s
  chain crash k = crash
  chain no_fuel k = no_fuel

  infixl 5 ◌>>=◌ ◌>>◌
  abbrev pub ◌>>=◌ : Cmd A → (A → Cmd B) → Cmd B
  ◌>>=◌ m k s = chain (m s) k

  abbrev pub ◌>>◌ : Cmd A → Cmd B → Cmd B
  ◌>>◌ m k s = chain (m s) (λ _. k)

abbrev pub return : {A : Type 0} → A → Cmd A
return a s = done a s

abbrev pub get_head : Cmd Ptr
get_head s = done s.head s

abbrev pub set_head : Ptr → Cmd (Unit {0})
set_head p s = done tt (record s { head = p })

unfoldable pub write : Cells → Ptr → Option QueueNode → Cells
write h p c a = if a == p then c else h a

-- `*p`: a crash at the null pointer and at an address that holds no node.
unfoldable pub load : Ptr → Cmd QueueNode
load p s = if p == null then crash else elim (s.cells p) [ none ↦ crash | some n ↦ done n s ]

-- `p->next = q`
unfoldable pub set_next : Ptr → Ptr → Cmd (Unit {0})
set_next p q s =
    chain (load p s)
      (λ n t. done tt (record t { cells = write t.cells p (some (record n { next = q })) }))

-- a write to a field of `*p->pcb`
unfoldable pub set_pcb : Ptr → Pcb → Cmd (Unit {0})
set_pcb p b s =
    chain (load p s)
      (λ n t. done tt (record t { cells = write t.cells p (some (record n { pcb = b })) }))

unfoldable pub free : Ptr → Cmd (Unit {0})
free p s = chain (load p s) (λ _ t. done tt (record t { cells = write t.cells p none }))
