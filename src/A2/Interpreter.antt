-- ===== src/A2/Interpreter.antt =====
-- The dispatch of commands, and the commands that start processes (a2/interpreter.c).
pub mod Dispatch
use comp310_w.Prelude.{
  ℕ, zero, suc, ◌==◌, ltb, if◌then◌else◌, ◌||◌, not, Bool, true, false, Option, none, some, List,
  [], ◌∷◌, ◌++◌, map, Str, codes, str_eq, length,
}
use comp310_w.Prelude.Span.{take_until}
use comp310_w.A2.Memory.{
  Memory, PagePolicy, fifo, lru, set_memory_policy, mem_init_variable, mem_set_value, mem_get_value,
}
use comp310_w.A2.Kernel.{Machine, Run, ended, fault, stuck, ◌>>=◌, ◌>>◌, return}

-- The codes of `enum Error` that the dispatch returns.
abbrev pub too_many_tokens : ℕ
too_many_tokens = 6

abbrev pub too_few_tokens : ℕ
too_few_tokens = 7

abbrev pub bad_command : ℕ
bad_command = 9

abbrev pub bad_policy : ℕ
bad_policy = 12

-- What `interpreter` calls, with the arguments, or the error it returns. An argument that is not
-- there is a null pointer, `none`.
pub data Action : Type 0 where
  error : ℕ → Action
  help quit my_ls resetmem : Action
  set : Str → Str → Action
  print run set_page_policy : Str → Action
  echo my_mkdir my_touch my_cd : Option Str → Action
  exec : List Str → Action

-- The bytes before the first line end.
abbrev pub line_end : ℕ → Bool
line_end c = (c == 13) || (c == 10)

abbrev pub strip : Str → Str
strip s = take_until line_end s

-- The values of `set` with one blank between them.
unfoldable pub join_values : Str → List Str → Str
join_values v [] = v
join_values v (w ∷ ws) = v ++ b' ' ∷ join_values w ws

abbrev pub argument : List Str → Option Str
argument [] = none
argument (a ∷ args) = some a

-- Exactly one argument, at most one, and none.
abbrev pub one : List Str → (Str → Action) → Action
one [] f = error too_few_tokens
one (a ∷ []) f = f a
one (a ∷ b ∷ args) f = error too_many_tokens

abbrev pub at_most_one : List Str → (Option Str → Action) → Action
at_most_one args f = if ltb 1 (length args) then error too_many_tokens else f (argument args)

abbrev pub no_argument : List Str → Action → Action
no_argument [] f = f
no_argument (a ∷ args) f = error too_many_tokens

abbrev pub set_of : List Str → Action
set_of [] = error too_few_tokens
set_of (x ∷ []) = error too_few_tokens
set_of (x ∷ v ∷ vs) = set x (join_values v vs)

-- `exec` takes four arguments and then calls nothing.
abbrev pub exec_of : List Str → Action
exec_of [] = error too_few_tokens
exec_of args =
    if ltb 4 (length args)
    then error too_many_tokens
    else if ltb (length args) 4
    then exec args
    else error bad_command

-- The chain of comparisons of the first word, on the words behind it.
unfoldable pub by_name : Str → List Str → Action
by_name name args =
    if str_eq name (codes "help")
    then no_argument args help
    else if str_eq name (codes "quit") || str_eq name (codes "exit")
    then no_argument args quit
    else if str_eq name (codes "set")
    then set_of args
    else if str_eq name (codes "print")
    then one args (λ a. print a)
    else if str_eq name (codes "run")
    then one args (λ a. run a)
    else if str_eq name (codes "echo")
    then at_most_one args (λ a. echo a)
    else if str_eq name (codes "my_ls")
    then no_argument args my_ls
    else if str_eq name (codes "my_mkdir")
    then at_most_one args (λ a. my_mkdir a)
    else if str_eq name (codes "my_touch")
    then at_most_one args (λ a. my_touch a)
    else if str_eq name (codes "my_cd")
    then at_most_one args (λ a. my_cd a)
    else if str_eq name (codes "exec")
    then exec_of args
    else if str_eq name (codes "resetmem")
    then no_argument args resetmem
    else if str_eq name (codes "pagepolicy")
    then one args (λ a. set_page_policy a)
    else error bad_command

-- `interpreter`, up to the call that it makes.
unfoldable pub dispatch : List Str → Action
dispatch [] = error too_few_tokens
dispatch (name ∷ args) =
    if ltb 7 (length (name ∷ args))
    then error too_many_tokens
    else by_name (strip name) (map strip args)

module _ (frame_store_size var_store_size : ℕ) where
  -- `print`: the string that is printed in front of a line end.
  unfoldable pub print_value : Str → Memory → Str × Memory
  print_value var m =
      let (value, m') = mem_get_value frame_store_size var_store_size var m in
      (elim value [ none ↦ 10 ∷ [] | some v ↦ v ], m')

  -- `echo` on an argument that is there.
  unfoldable pub echo_value : Str → Memory → Str × Memory
  unfolding print_value
  echo_value [] m = ([], m)
  echo_value (c ∷ var) m = if c == b'$' then print_value var m else (c ∷ var, m)

  -- `set_page_policy`, with its code.
  unfoldable pub change_page_policy : Str → Memory → ℕ × Memory
  change_page_policy policy m =
      if str_eq policy (codes "FIFO")
      then (0, set_memory_policy fifo m)
      else if str_eq policy (codes "LRU")
      then (0, set_memory_policy lru m)
      else (bad_policy, m)

-- `process_initialize` and `schedule_by_policy` of the kernel.
module _ (initialize schedule : Str → Machine → Run ℕ) where
  -- `run`: only the code 11 stops it, and the code of the scheduler is not looked at.
  unfoldable pub run_script : Str → Machine → Run ℕ
  run_script script = do
    code ← initialize script
    if code == 11 then return code else (do schedule (codes "FCFS"); return code)

  -- `exec`, from the files that are left; `none` is the value of a function that ends without a
  -- `return`.
  unfoldable pub exec_files : List Str → Machine → Run (Option ℕ)
  exec_files [] = do
    code ← schedule (codes "RR")
    if code == 0 then return none else return (some code)
  exec_files (file ∷ files) = do
    code ← initialize file
    if code == 0 then exec_files files else return (some code)
