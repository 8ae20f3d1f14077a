-- ===== src/A3/Interpreter/Names.antt =====
-- The names of the copies that `run` and `exec` of a3/interpreter.c make, and the variables that
-- `echo` prints.
use mathlib.Core.List.{append_assoc}
use comp310_w.Prelude.{
  ℕ, suc, ◌+◌, ◌≤◌, ◌<◌, ltb, if◌then◌else◌, not, Bool, true, false, some, List, [], ◌∷◌, ◌++◌, Str,
  codes, length, length-append, replicate, length-replicate, ◌≡◌, refl, ◌∙◌, ap, if_true, if_false,
  arith,
}
use comp310_w.A3.Memory.{Cell}
use comp310_w.A3.Memory.Variables.{HasRoom, mem_get_value-mem_set_value_back}
use comp310_w.A3.Interpreter.{
  new_name, copy_command, run_of, overflow, perform, run, is_alnum_str, alnum_from, remove_store,
  make_store,
}
use comp310_w.A3.Interpreter.Replies.{ends_alnum, echo_value, set_variable}

new_name-length : (count : ℕ) (arg : Str) → length (new_name count arg) ≡ 16 + (length arg + count)
unfolding new_name
new_name-length count arg = omega (
  arith,
  length-append (codes "./backing_store/") (arg ++ replicate count b'a'),
  length-append arg (replicate count b'a'),
  length-replicate {A = ℕ} count b'a',
)

copy_command-length :
    (count : ℕ) (arg : Str)
    → length (copy_command count arg) ≡ 22 + (length arg + length arg + count)
unfolding copy_command
copy_command-length count arg = omega (
  arith,
  length-append (codes "cp ./") (arg ++ b' ' ∷ new_name count arg),
  length-append arg (b' ' ∷ new_name count arg),
  new_name-length count arg,
)

-- With `count` copies made so far (from 1), `run` copies the script, runs the copy and empties the
-- backing store as long as twice the length of its name and `count` are less than 78 together; from
-- there on it writes behind the buffer `cmd`.
pub run_of-length :
    (count : ℕ) (cwd arg : Str)
    → (length arg + length arg + count < 78
        → run_of count cwd arg
          ≡ perform
              (copy_command count arg ∷ [])
              (run (new_name count arg))
              (remove_store count cwd ∷ make_store count cwd ∷ [])
              (count + 1))
      × (78 ≤ length arg + length arg + count → run_of count cwd arg ≡ overflow)
unfolding run_of
run_of-length count cwd arg =
    let long = copy_command-length count arg in
    (
      λ h.
          let fits : ltb (length (copy_command count arg)) 100 ≡ true = ground (arith, long, h) in
          if_true _ _ fits,
      λ h.
          let fits : ltb (length (copy_command count arg)) 100 ≡ false = ground (arith, long, h) in
          if_false _ _ fits,
    )

replicate-shift : (count a : ℕ) → a ∷ replicate count a ≡ replicate (count + 1) a
replicate-shift count a = let e : count + 1 ≡ suc count = omega arith in rw e refl

-- Copies of one script at different times have different names. A script whose name has one more `a`
-- at its end, copied just before, gets the same name as the script without it.
pub new_name_same :
    (count count' : ℕ) (arg : Str)
    → (new_name count arg ≡ new_name count' arg → count ≡ count')
      × (new_name count (arg ++ b'a' ∷ []) ≡ new_name (count + 1) arg)
unfolding new_name
new_name_same count count' arg = (
  λ e. omega (arith, ap length e, new_name-length count arg, new_name-length count' arg),
  ap (λ l. codes "./backing_store/" ++ l)
      (append_assoc arg (b'a' ∷ []) (replicate count b'a')
        ∙ ap (λ l. arg ++ l) (replicate-shift count b'a')),
)

module _ (isalnum : ℕ → Bool) where
  -- The loop over the ends of a string tests each byte of it.
  ends_alnum-alnum_from : (s : Str) → ends_alnum isalnum s ≡ alnum_from isalnum s
  unfolding ends_alnum alnum_from is_alnum_str
  ends_alnum-alnum_from [] = refl
  ends_alnum-alnum_from (c ∷ s) =
      rw (ends_alnum-alnum_from s) (go (isalnum c) (alnum_from isalnum s))
    where
      go :
          (a b : Bool)
          → (if not (if not a then false else b) then false else b) ≡ (if not a then false else b)
      go true true = refl
      go true false = refl
      go false b = refl

  -- After `set` of an alphanumeric variable that is there or has a free cell, `echo` of `$` and its
  -- name prints the value.
  pub echo_value-set_variable :
      (frame_store_size var_store_size : ℕ) (m : List Cell) (var value : Str)
      → frame_store_size + var_store_size ≤ length m
      → HasRoom frame_store_size var_store_size m var
      → is_alnum_str isalnum var ≡ true
      → echo_value isalnum frame_store_size var_store_size
          (b'$' ∷ var)
          ((set_variable frame_store_size var_store_size var value m).1)
        ≡ some value
  unfolding echo_value is_alnum_str
  echo_value-set_variable F V m var value fits room alnum =
      let tested : ends_alnum isalnum var ≡ true = ends_alnum-alnum_from var ∙ whole var alnum in
      if_true _ _ tested ∙ ap some (mem_get_value-mem_set_value_back F V m var value fits b'e' room)
    where
      whole : (s : Str) → is_alnum_str isalnum s ≡ true → alnum_from isalnum s ≡ true
      whole [] h = cc
      whole (c ∷ s) h = h
