-- ===== src/Prelude/Stream.antt =====
-- What the programs use of C's input streams: `fgets`, `feof`, and strings cut at their NUL.
use Prim.Native.Nat.{ℕ, zero, suc, ◌-◌}
use mathlib.Core.Bool.{Bool, true, false, ◌||◌}
use mathlib.Core.Option.{Option, none, some}
use mathlib.Core.List.{[], ◌∷◌}
use comp310_w.Prelude.Tests.{◌==◌, if◌then◌else◌}
use comp310_w.Prelude.Bytes.{Str}

-- An open text file: the bytes that are left, and the end-of-file indicator, which is set only
-- when a read runs into the end.
pub record Stream : Type 0 where
  pub rest : Str
  pub eof : Bool

abbrev pub opened : Str → Stream
opened content = record { rest = content; eof = false }

-- At most `n` bytes, up to and with the first newline; the bytes behind them; whether the end was
-- met.
pub record Chunk : Type 0 where
  pub line : Str
  pub rest : Str
  pub ended : Bool

unfoldable pub take_line : ℕ → Str → Chunk
take_line zero s = record { line = []; rest = s; ended = false }
take_line (suc n) [] = record { line = []; rest = []; ended = true }
take_line (suc n) (c ∷ s) =
    let more = take_line n s in
    if c == 10
    then record { line = c ∷ []; rest = s; ended = false }
    else record { line = c ∷ more.line; rest = more.rest; ended = more.ended }

abbrev is_empty : Str → Bool
is_empty [] = true
is_empty (c ∷ s) = false

-- `fgets(buf, size, fp)`: `none` is the null pointer, when the end is met before any byte.
unfoldable pub fgets : ℕ → Stream → Option Str × Stream
unfolding take_line
fgets size fp =
    let chunk = take_line (size - 1) fp.rest in
    let fp' : Stream = record { rest = chunk.rest; eof = fp.eof || chunk.ended } in
    if is_empty chunk.line then (none, fp') else (some chunk.line, fp')

-- The string that a buffer holds, up to its first NUL.
unfoldable pub c_string : Str → Str
c_string [] = []
c_string (c ∷ s) = let rest = c_string s in if c == 0 then [] else c ∷ rest
