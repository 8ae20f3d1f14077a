-- ===== src/A3/Interpreter/Replies.antt =====
-- What the commands of a3/interpreter.c do with their result, and those that it implements itself.
use comp310_w.Prelude.{
  ℕ, ◌==◌, ltb, if◌then◌else◌, not, Bool, true, false, Option, none, some, List, [], ◌∷◌, ◌++◌, Str,
  codes, str_eq, length, get_or,
}
use comp310_w.Prelude.Int.{ℤ, pos, negsuc}
use comp310_w.A3.Memory.{Cell, mem_set_value, mem_get_value}
use comp310_w.A3.Interpreter.{
  Error, no_error, file_does_not_exist, no_mem_space, ready_queue_full, scheduling_error,
  too_many_tokens, too_few_tokens, non_alphanumeric_token, bad_command, error_rm,
  file_creation_error, filesystem_error, file_write_error, file_read_error, Call, help, quit,
  resetmem, ls, freespace, fragmentation_degree, defragment, set_var, print, echo, run, cat, rm,
  find_file, copy_in, copy_out, size, exec, create, read, seek, write, recover, is_alnum_str,
}

module _ (isalnum : ℕ → Bool) where
  -- The loop of `echo` over the ends of the string.
  unfoldable pub ends_alnum : Str → Bool
  ends_alnum [] = true
  ends_alnum (c ∷ p) =
      let rest = ends_alnum p in if not (is_alnum_str isalnum (c ∷ p)) then false else rest

  -- `echo` and `print`: the string that is printed in front of a line end, or the error.
  module _ (frame_store_size var_store_size : ℕ) where
    unfoldable pub echo_value : Str → List Cell → Option Str
    echo_value [] m = if not (is_alnum_str isalnum []) then none else some []
    echo_value (c ∷ var) m =
        if not (c == b'$')
        then (if not (is_alnum_str isalnum (c ∷ var)) then none else some (c ∷ var))
        else if ends_alnum var
        then some (mem_get_value frame_store_size var_store_size var b'e' m)
        else none

abbrev pub print_value : ℕ → ℕ → Str → List Cell → Str
print_value frame_store_size var_store_size var m =
    mem_get_value frame_store_size var_store_size var b'p' m

-- What `interpreter` returns, from what the call returned: an error, with its code; a code; or the
-- error whose code the call returned.
pub data Reply : Type 0 where
  failed : Error → Reply
  failed_with : ℤ → Reply
  code : ℤ → Reply

abbrev pub is_int : ℤ → ℤ → Bool
is_int (pos a) (pos b) = a == b
is_int (negsuc a) (negsuc b) = a == b
is_int (pos a) (negsuc b) = false
is_int (negsuc a) (pos b) = false

unfoldable pub reply : Call → ℤ → Reply
reply help status = code status
reply quit status = code status
reply (set_var var value) status = code status
reply (print var) status = code status
reply (echo var) status = code status
reply (run name) status = code status
reply (exec names) status = code status
reply resetmem status = code (pos 0)
reply ls status = if is_int status (pos 1) then failed filesystem_error else code (pos 0)
reply (cat name) status = if is_int status (pos 1) then failed file_does_not_exist else code (pos 0)
reply (rm name) status = if is_int status (pos 0) then failed error_rm else code status
reply (create name n) status =
    if is_int status (pos 0) then failed file_creation_error else code (pos 0)
reply (write name buffer n) status =
    if is_int status (negsuc 0) then failed file_write_error else code (pos 0)
reply (find_file buffer) status = code (pos 0)
reply (read name n) status =
    if is_int status (negsuc 0)
    then failed file_read_error
    else code (if is_int status n then pos 1 else pos 0)
reply (copy_in path) status = if is_int status (pos 0) then code (pos 0) else failed_with status
reply (copy_out name) status = if is_int status (pos 0) then code (pos 0) else failed_with status
reply (size name) status =
    if is_int status (negsuc 0) then failed file_does_not_exist else code (pos 0)
reply (seek name n) status =
    if is_int status (negsuc 0) then failed file_does_not_exist else code (pos 0)
reply freespace status = code (pos 0)
reply fragmentation_degree status = code (pos 0)
reply defragment status = code (pos 0)
reply (recover flag) status = code (pos 0)

-- The place of an error in `enum Error`.
abbrev pub number : Error → ℕ
number no_error = 0
number file_does_not_exist = 1
number no_mem_space = 2
number ready_queue_full = 3
number scheduling_error = 4
number too_many_tokens = 5
number too_few_tokens = 6
number non_alphanumeric_token = 7
number bad_command = 8
number error_rm = 9
number file_creation_error = 10
number filesystem_error = 11
number file_write_error = 12
number file_read_error = 13

abbrev pub error_msgs : List Str
error_msgs =
    codes "no error"
    ∷ codes "file does not exist"
    ∷ codes "no space left in shell memory"
    ∷ codes "ready queue is full"
    ∷ codes "scheduling policy error"
    ∷ codes "too many tokens"
    ∷ codes "too few tokens"
    ∷ codes "non-alphanumeric token"
    ∷ codes "unknown name"
    ∷ codes "rm"
    ∷ codes "file could not be created"
    ∷ codes "bad filesystem"
    ∷ codes "file could not be written (maybe no space?)"
    ∷ codes "file could not be read"
    ∷ []

-- What is printed, and the code.
abbrev pub handle_error : Error → Str × ℕ
handle_error e = (codes "Bad command: " ++ get_or error_msgs (number e) [], number e)

-- `set`, whose own buffer nothing reads.
abbrev pub set_variable : ℕ → ℕ → Str → Str → List Cell → ℤ × List Cell
set_variable frame_store_size var_store_size var value m =
    (pos 0, mem_set_value frame_store_size var_store_size var value m)

-- The functions of the kernel.
module _ {S : Type 0} (new_proc : Str → S → ℤ × S) (run_proc_fifo run_proc_rr : S → ℤ × S) where
  -- `run`
  unfoldable pub run_script : Str → S → ℤ × S
  run_script script s =
      let started = new_proc script s in
      if not (is_int started.0 (pos 0)) then (pos 1, started.1) else run_proc_rr started.1

  abbrev pub by_policy : Str → S → ℤ × S
  by_policy policy s =
      if str_eq policy (codes "FIFO")
      then run_proc_fifo s
      else if str_eq policy (codes "RR")
      then run_proc_rr s
      else (pos 0, s)

  -- `exec` behind the test of the number of scripts.
  unfoldable pub exec_from : List Str → Str → S → ℤ × S
  exec_from [] policy s = by_policy policy s
  exec_from (script ∷ scripts) policy s =
      let started = new_proc script s in
      let rest = exec_from scripts policy started.1 in
      if not (is_int started.0 (pos 0)) then (pos 1, started.1) else rest

  unfoldable pub exec_scripts : List Str → Str → S → ℤ × S
  exec_scripts scripts policy s =
      if ltb 3 (length scripts) then (pos 1, s) else exec_from scripts policy s
