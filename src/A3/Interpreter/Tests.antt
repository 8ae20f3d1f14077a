-- ===== src/A3/Interpreter/Tests.antt =====
-- The commands of the third shell, with ASCII letters and digits.
use comp310_w.Prelude.{
  ℕ, ◌+◌, ◌-◌, ◌≤◌, ◌<◌, leb, ltb, if◌then◌else◌, ◌&&◌, ◌||◌, Bool, true, some, List, [], ◌∷◌, ◌++◌,
  Str, codes, str_eq, length, ◌≡◌, refl, arith,
}
use comp310_w.Prelude.Int.{ℤ, pos, negsuc}
use comp310_w.Prelude.Span.{take_until}
use comp310_w.Prelude.Scan.{first_from}
use comp310_w.Prelude.Table.{find_key}
use comp310_w.A3.Memory.{Cell, blank}
use comp310_w.A3.Memory.Variables.{HasRoom}
use comp310_w.A3.Interpreter.{
  set_var, quit, cat, read, run, write, Action, error, bad_command, perform, overflow, missing,
  just, buffer_of, new_name, copy_command, run_of, write_of, remove_store, make_store, is_alnum_str,
  alnum_from,
}
use comp310_w.A3.Interpreter.Dispatch.{dispatch, by_name, fs_by_name, set_of}
use comp310_w.A3.Interpreter.Replies.{echo_value, set_variable, code, reply}
use comp310_w.A3.Interpreter.Buffers.{join, write_of-join, set_of-join}
use comp310_w.A3.Interpreter.Names.{run_of-length, new_name_same, echo_value-set_variable}

abbrev alnum : ℕ → Bool
alnum c = (leb b'0' c && leb c b'9') || (leb b'A' c && leb c b'Z') || (leb b'a' c && leb c b'z')

-- A number of one digit.
abbrev digit : Str → ℤ
digit [] = pos 0
digit (c ∷ s) = pos (c - 48)

abbrev interpret : List Str → Action
interpret ws = dispatch 1 (codes "/home") alnum digit ws

quits :
    interpret (codes "exit\n" ∷ []) ≡ perform (codes "rm -rf /home/backing_store" ∷ []) quit [] 1
unfolding dispatch by_name str_eq take_until
quits = refl

unknown : interpret (codes "my_ls" ∷ []) ≡ error bad_command
unfolding dispatch by_name fs_by_name str_eq take_until
unknown = refl

echo_alone : interpret (codes "echo" ∷ []) ≡ missing
unfolding dispatch by_name str_eq take_until
echo_alone = refl

-- `fsutil_cat` returns -1 for a file that is not there, and nothing comes of it.
cat_missing : reply (cat (codes "f")) (negsuc 0) ≡ code (pos 0)
unfolding reply
cat_missing = refl

-- Reading all that was asked for gives the code 1.
read_all : reply (read (codes "f") (pos 5)) (pos 5) ≡ code (pos 1)
unfolding reply
read_all = refl

write_of-join_example :
    (write_of 1 (codes "/home") (codes "f" ∷ codes "ab" ∷ codes "c" ∷ [])
      ≡ just 1 (codes "/home") (
          write
            (codes "f")
            (join (codes "ab") (codes "c" ∷ []) ++ 0 ∷ 0 ∷ [])
            (length (join (codes "ab") (codes "c" ∷ [])) + 2)))
    × (length (buffer_of (codes "ab" ∷ codes "c" ∷ []))
        ≡ length (join (codes "ab") (codes "c" ∷ [])) + 2)
write_of-join_example = write_of-join 1 (codes "/home") (codes "f") (codes "ab") (codes "c" ∷ [])

x_alnum : is_alnum_str alnum (codes "x") ≡ true
unfolding is_alnum_str alnum_from
x_alnum = refl

five_alnum : is_alnum_str alnum (codes "5") ≡ true
unfolding is_alnum_str alnum_from
five_alnum = refl

set_of-join_example :
    set_of 1 (codes "/home") alnum digit (codes "x" ∷ codes "5" ∷ codes "5" ∷ []) ≡ (
      if ltb (length (join (codes "5") (codes "5" ∷ []))) 505
      then just 1 (codes "/home") (set_var (codes "x") (join (codes "5") (codes "5" ∷ [])))
      else overflow)
set_of-join_example =
    set_of-join 1 (codes "/home") alnum digit (codes "x") (codes "5") (codes "5" ∷ [])
      (x_alnum, (five_alnum, (five_alnum, tt)))

run_of-length_example :
    (length (codes "s") + length (codes "s") + 1 < 78
      → run_of 1 (codes "/home") (codes "s")
        ≡ perform
            (copy_command 1 (codes "s") ∷ [])
            (run (new_name 1 (codes "s")))
            (remove_store 1 (codes "/home") ∷ make_store 1 (codes "/home") ∷ [])
            2)
    × (78 ≤ length (codes "s") + length (codes "s") + 1
        → run_of 1 (codes "/home") (codes "s") ≡ overflow)
run_of-length_example = run_of-length 1 (codes "/home") (codes "s")

abbrev one : ℕ
one = 1

new_name_same_example :
    (new_name 1 (codes "x") ≡ new_name 1 (codes "x") → one ≡ one)
    × (new_name 1 (codes "xa") ≡ new_name 2 (codes "x"))
new_name_same_example = new_name_same 1 1 (codes "x")

-- A frame of three lines and two free variables.
abbrev memory : List Cell
memory = blank ∷ blank ∷ blank ∷ blank ∷ blank ∷ []

memory-HasRoom : HasRoom 3 2 memory (codes "x")
unfolding find_key first_from str_eq
memory-HasRoom _ e = absurd (ground arith)

echo_value-set_variable_example :
    echo_value alnum 3 2 (codes "$x") ((set_variable 3 2 (codes "x") (codes "5") memory).1)
    ≡ some (codes "5")
echo_value-set_variable_example =
    echo_value-set_variable alnum 3 2 memory (codes "x") (codes "5") (omega arith) memory-HasRoom
      x_alnum
