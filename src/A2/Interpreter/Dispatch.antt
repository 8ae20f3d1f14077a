-- ===== src/A2/Interpreter/Dispatch.antt =====
-- What the dispatch of a2/interpreter.c hands to `set`.
use comp310_w.Prelude.{
  suc, ◌≤◌, ◌≡◌, refl, ltb, false, List, [], ◌∷◌, map, Str, codes, arith, length, str_eq,
}
use comp310_w.Prelude.Span.{NoStop, take_until, take_until-all}
use comp310_w.A2.Interpreter.{set, line_end, strip, join_values, by_name, dispatch}

-- No word holds a line end.
abbrev pub NoLineEnds : List Str → Type 0
NoLineEnds [] = Unit
NoLineEnds (w ∷ ws) = NoStop line_end w × NoLineEnds ws

strip-all : (ws : List Str) → NoLineEnds ws → map strip ws ≡ ws
strip-all [] h = refl
strip-all (w ∷ ws) h = rw (take_until-all line_end w (h.0), strip-all ws h.1)

-- `set` gets its first argument and the other ones, up to five, with one blank between them.
pub dispatch-join_values :
    (x v : Str) (vs : List Str)
    → NoLineEnds (x ∷ v ∷ vs)
    → length vs ≤ 4
    → dispatch (codes "set" ∷ x ∷ v ∷ vs) ≡ set x (join_values v vs)
unfolding dispatch by_name str_eq take_until
dispatch-join_values x v vs h short =
    let few : ltb 7 (suc (suc (suc (length vs)))) ≡ false = ground arith in
    rw (few, take_until-all line_end x (h.0), take_until-all line_end v (h.1.0), strip-all vs h.1.1)
