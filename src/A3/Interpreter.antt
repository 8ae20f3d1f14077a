-- ===== src/A3/Interpreter.antt =====
-- The dispatch of commands of the third shell, and the commands that it implements itself
-- (a3/interpreter.c). What the commands print is left out, but for `print` and `echo`.
pub mod Dispatch
pub mod Replies
pub mod Buffers
pub mod Names
mod Tests
use comp310_w.Prelude.{
  ℕ, zero, suc, ◌+◌, ◌-◌, ◌==◌, leb, ltb, if◌then◌else◌, ◌||◌, not, Bool, true, false, Option, none,
  some, List, [], ◌∷◌, ◌++◌, map, Str, codes, str_eq, length, set, replicate,
}
use comp310_w.Prelude.Int.{ℤ, pos, negsuc}
use comp310_w.Prelude.Span.{take_until, null_string}
use comp310_w.A3.Memory.{Cell, mem_set_value, mem_get_value, reset_var_zone}

-- `enum Error`
pub data Error : Type 0 where
  no_error file_does_not_exist no_mem_space ready_queue_full scheduling_error : Error
  too_many_tokens too_few_tokens non_alphanumeric_token bad_command error_rm : Error
  file_creation_error filesystem_error file_write_error file_read_error : Error

-- What `interpreter` calls. `quit` calls `filesys_done` in front.
pub data Call : Type 0 where
  help quit resetmem ls freespace fragmentation_degree defragment : Call
  set_var : Str → Str → Call
  print echo run cat rm find_file copy_in copy_out size : Str → Call
  exec : List Str → Call
  create read seek : Str → ℤ → Call
  write : Str → Str → ℕ → Call
  recover : ℤ → Call

-- A call with the commands that go to `system` before and after it and the counter of copies then;
-- an error; a write behind a buffer; or the use of an argument that is not there.
pub data Action : Type 0 where
  error : Error → Action
  perform : List Str → Call → List Str → ℕ → Action
  overflow : Action
  missing : Action

-- The bytes before the first line end.
abbrev pub line_end : ℕ → Bool
line_end c = (c == 13) || (c == 10)

abbrev pub strip : Str → Str
strip s = take_until line_end s

-- `strcpy` of the words and blanks one behind the other, with the NUL of the last `strcpy`.
unfoldable pub fill : List Str → Str
fill [] = 0 ∷ []
fill (w ∷ ws) = w ++ b' ' ∷ fill ws

-- `current_ind` behind the loop
unfoldable pub current_ind : List Str → ℕ
current_ind [] = 0
current_ind (w ∷ ws) = length w + 1 + current_ind ws

unfoldable pub buffer_of : List Str → Str
buffer_of ws = set (fill ws) (current_ind ws - 1) 0

-- The sum of the lengths.
unfoldable pub total : List Str → ℕ
total [] = 0
total (w ∷ ws) = length w + total ws

-- The copy of a script in the backing store, and the command that makes it.
unfoldable pub new_name : ℕ → Str → Str
new_name count arg = codes "./backing_store/" ++ (arg ++ replicate count b'a')

unfoldable pub copy_command : ℕ → Str → Str
copy_command count arg = codes "cp ./" ++ (arg ++ b' ' ∷ new_name count arg)

-- The loop of `exec` over the scripts: the commands and the names; `none` when `cmd` is too short,
-- which is the first of the three buffers of 100 bytes to be too short.
unfoldable pub copies : ℕ → List Str → Option (List Str × List Str)
copies count [] = some ([], [])
copies count (arg ∷ args) =
    let rest = copies (count + 1) args in
    if ltb (length (copy_command count arg)) 100
    then elim rest [
      | none ↦ none
      | some (cmds, names) ↦ some (copy_command count arg ∷ cmds, new_name count arg ∷ names)
    ]
    else none

-- `isAlphaNumStr`, with the function of the C library.
module _ (isalnum : ℕ → Bool) where
  unfoldable pub alnum_from : Str → Bool
  alnum_from [] = true
  alnum_from (c ∷ s) = let rest = alnum_from s in if not (isalnum c) then false else rest

  unfoldable pub is_alnum_str : Str → Bool
  is_alnum_str [] = false
  is_alnum_str (c ∷ s) = alnum_from (c ∷ s)

module _ (count : ℕ) (cwd : Str) where
  abbrev pub just : Call → Action
  just c = perform [] c [] count

  abbrev pub remove_store : Str
  remove_store = codes "rm -rf " ++ (cwd ++ codes "/backing_store")

  abbrev pub make_store : Str
  make_store = codes "mkdir " ++ (cwd ++ codes "/backing_store")

  -- No argument, exactly one, and exactly two; all other numbers are too many.
  abbrev pub no_argument : List Str → Call → Action
  no_argument [] c = just c
  no_argument (a ∷ args) c = error too_many_tokens

  abbrev pub one : List Str → (Str → Action) → Action
  one (a ∷ []) f = f a
  one [] f = error too_many_tokens
  one (a ∷ b ∷ args) f = error too_many_tokens

  abbrev pub two : List Str → (Str → Str → Action) → Action
  two (a ∷ b ∷ []) f = f a b
  two [] f = error too_many_tokens
  two (a ∷ []) f = error too_many_tokens
  two (a ∷ b ∷ c ∷ args) f = error too_many_tokens

  -- At least one, and not more.
  abbrev pub needs_one : List Str → (Str → Action) → Action
  needs_one [] f = error too_few_tokens
  needs_one (a ∷ args) f = one (a ∷ args) f

  unfoldable pub run_of : Str → Action
  run_of arg =
      if ltb (length (copy_command count arg)) 100
      then perform (copy_command count arg ∷ []) (run (new_name count arg))
          (remove_store ∷ make_store ∷ []) (count + 1)
      else overflow

  unfoldable pub exec_of : List Str → Action
  exec_of args =
      if null_args args
      then error too_few_tokens
      else if ltb 4 (length args)
      then error too_many_tokens
      else elim (copies count args) [
        | none ↦ overflow
        | some (cmds, names) ↦
            perform cmds (exec names) (remove_store ∷ make_store ∷ []) (count + length args)
      ]
    where
      null_args : List Str → Bool
      null_args [] = true
      null_args (a ∷ args) = false

  unfoldable pub write_of : List Str → Action
  write_of [] = error too_few_tokens
  write_of (file ∷ []) = error too_few_tokens
  write_of (file ∷ w ∷ ws) =
      just (write file (buffer_of (w ∷ ws)) (total (w ∷ ws) + (length (w ∷ ws) + 1)))

  -- `find_file` is given a string, which ends at the first NUL.
  unfoldable pub find_file_of : List Str → Action
  find_file_of [] = error too_few_tokens
  find_file_of (w ∷ ws) = just (find_file (take_until (λ c. c == 0) (buffer_of (w ∷ ws))))

  -- A buffer of a negative size is not there, or `memset` writes behind it.
  unfoldable pub read_of : Str → ℤ → Action
  read_of name (pos n) = just (read name (pos n))
  read_of name (negsuc zero) = just (read name (negsuc zero))
  read_of name (negsuc (suc n)) = overflow

  -- `getcwd` gives the directory in which the shell was started.
  unfoldable pub copy_in_of : Str → Action
  copy_in_of name =
      let path = cwd ++ b'/' ∷ name in
      if ltb (length path) 1024 then just (copy_in path) else overflow
