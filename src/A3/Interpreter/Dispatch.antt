-- ===== src/A3/Interpreter/Dispatch.antt =====
-- The chain of comparisons on the first word (`interpreter` of a3/interpreter.c), up to the call.
use comp310_w.Prelude.{
  ℕ, ltb, if◌then◌else◌, ◌||◌, not, Bool, List, [], ◌∷◌, ◌++◌, map, Str, codes, str_eq, length,
}
use comp310_w.Prelude.Int.{ℤ}
use comp310_w.A3.Interpreter.{
  too_few_tokens, too_many_tokens, non_alphanumeric_token, bad_command, help, quit, resetmem, ls,
  freespace, fragmentation_degree, defragment, set_var, print, echo, cat, rm, copy_out, size,
  create, seek, recover, Action, error, perform, overflow, missing, strip, is_alnum_str, just,
  no_argument, one, two, needs_one, run_of, exec_of, write_of, find_file_of, copy_in_of, read_of,
  remove_store,
}

-- Two functions of the C library are parameters.
module _ (count : ℕ) (cwd : Str) (isalnum : ℕ → Bool) (atoi : Str → ℤ) where
  -- No blank behind the last value.
  abbrev pub blank_before : List Str → Str
  blank_before [] = []
  blank_before (v ∷ vs) = b' ' ∷ []

  -- The loop of `set` over the values, with a buffer of 505 bytes.
  unfoldable pub set_values : Str → Str → List Str → Action
  set_values var buffer [] = just count cwd (set_var var buffer)
  set_values var buffer (v ∷ vs) =
      let buffer' = buffer ++ (v ++ blank_before vs) in
      let further = set_values var buffer' vs in
      if not (is_alnum_str isalnum v)
      then error non_alphanumeric_token
      else if ltb (length buffer') 505
      then further
      else overflow

  unfoldable pub set_of : List Str → Action
  set_of [] = error too_few_tokens
  set_of (var ∷ []) = error too_few_tokens
  set_of (var ∷ v ∷ vs) =
      if not (is_alnum_str isalnum var)
      then error non_alphanumeric_token
      else set_values var [] (v ∷ vs)

  abbrev pub echo_of : List Str → Action
  echo_of [] = missing
  echo_of (a ∷ []) = just count cwd (echo a)
  echo_of (a ∷ b ∷ args) = error too_many_tokens

  -- The part of the chain of comparisons for the commands of the file system.
  unfoldable pub fs_by_name : Str → List Str → Action
  fs_by_name name args =
      if str_eq name (codes "ls")
      then no_argument count cwd args ls
      else if str_eq name (codes "cat")
      then one count cwd args (λ a. just count cwd (cat a))
      else if str_eq name (codes "rm")
      then one count cwd args (λ a. just count cwd (rm a))
      else if str_eq name (codes "create")
      then two count cwd args (λ a b. just count cwd (create a (atoi b)))
      else if str_eq name (codes "write")
      then write_of count cwd args
      else if str_eq name (codes "find_file")
      then find_file_of count cwd args
      else if str_eq name (codes "read")
      then two count cwd args (λ a b. read_of count cwd a (atoi b))
      else if str_eq name (codes "copy_in")
      then one count cwd args (λ a. copy_in_of count cwd a)
      else if str_eq name (codes "copy_out")
      then one count cwd args (λ a. just count cwd (copy_out a))
      else if str_eq name (codes "size")
      then one count cwd args (λ a. just count cwd (size a))
      else if str_eq name (codes "seek")
      then two count cwd args (λ a b. just count cwd (seek a (atoi b)))
      else if str_eq name (codes "freespace")
      then no_argument count cwd args freespace
      else if str_eq name (codes "fragmentation_degree")
      then no_argument count cwd args fragmentation_degree
      else if str_eq name (codes "defragment")
      then no_argument count cwd args defragment
      else if str_eq name (codes "recover")
      then one count cwd args (λ a. just count cwd (recover (atoi a)))
      else error bad_command

  -- The chain from its beginning.
  unfoldable pub by_name : Str → List Str → Action
  by_name name args =
      if str_eq name (codes "help")
      then no_argument count cwd args help
      else if str_eq name (codes "quit") || str_eq name (codes "exit")
      then quit_of args
      else if str_eq name (codes "set")
      then set_of args
      else if str_eq name (codes "print")
      then needs_one count cwd args (λ a. just count cwd (print a))
      else if str_eq name (codes "run")
      then needs_one count cwd args (λ a. run_of count cwd a)
      else if str_eq name (codes "echo")
      then echo_of args
      else if str_eq name (codes "exec")
      then exec_of count cwd args
      else if str_eq name (codes "resetmem")
      then just count cwd resetmem
      else fs_by_name name args
    where
      quit_of : List Str → Action
      quit_of [] = perform (remove_store count cwd ∷ []) quit [] count
      quit_of (a ∷ args) = error too_many_tokens

  -- `interpreter` up to the call.
  unfoldable pub dispatch : List Str → Action
  dispatch [] = error too_few_tokens
  dispatch (name ∷ args) = by_name (strip name) (map strip args)
