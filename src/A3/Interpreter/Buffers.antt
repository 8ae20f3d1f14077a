-- ===== src/A3/Interpreter/Buffers.antt =====
-- The buffers that `interpreter` of a3/interpreter.c fills with words.
use mathlib.Core.List.{append_assoc, append-nil}
use comp310_w.Prelude.{
  ℕ, suc, ◌+◌, ◌-◌, ◌≤◌, ltb, if◌then◌else◌, Bool, true, false, List, [], ◌∷◌, ◌++◌, Str, length,
  length-append, set, ◌≡◌, refl, sym, ◌∙◌, ap, if_true, if_false, arith, Bool-cases, inl, inr,
}
use comp310_w.Prelude.Int.{ℤ}
use comp310_w.A3.Interpreter.{
  fill, current_ind, buffer_of, total, write_of, Action, overflow, write, set_var, is_alnum_str,
  just,
}
use comp310_w.A3.Interpreter.Dispatch.{set_values, set_of}

-- The words with one blank between them.
unfoldable pub join : Str → List Str → Str
join w [] = w
join w (v ∷ ws) = w ++ b' ' ∷ join v ws

module _ {A : Type 0} where
  set_end : (xs : List A) (a b : A) (ys : List A) → set (xs ++ a ∷ ys) (length xs) b ≡ xs ++ b ∷ ys
  set_end [] a b ys = refl
  set_end (x ∷ xs) a b ys = ap (λ l. x ∷ l) (set_end xs a b ys)

fill-join : (w : Str) (ws : List Str) → fill (w ∷ ws) ≡ join w ws ++ b' ' ∷ 0 ∷ []
unfolding fill join
fill-join w [] = refl
fill-join w (v ∷ ws) =
    ap (λ l. w ++ b' ' ∷ l) (fill-join v ws)
    ∙ sym (append_assoc w (b' ' ∷ join v ws) (b' ' ∷ 0 ∷ []))

current_ind-join : (w : Str) (ws : List Str) → current_ind (w ∷ ws) ≡ suc (length (join w ws))
unfolding current_ind join
current_ind-join w [] = omega arith
current_ind-join w (v ∷ ws) =
    omega (arith, current_ind-join v ws, length-append w (b' ' ∷ join v ws))

total-join : (w : Str) (ws : List Str) → total (w ∷ ws) + length ws ≡ length (join w ws)
unfolding total join
total-join w [] = omega arith
total-join w (v ∷ ws) = omega (arith, total-join v ws, length-append w (b' ' ∷ join v ws))

-- `write` passes the words with one blank between two, followed by two NULs, with the size of all
-- that: the buffer is exactly as long as the size that is allocated.
pub write_of-join :
    (count : ℕ) (cwd file w : Str) (ws : List Str)
    → (write_of count cwd (file ∷ w ∷ ws)
        ≡ just count cwd (write file (join w ws ++ 0 ∷ 0 ∷ []) (length (join w ws) + 2)))
      × (length (buffer_of (w ∷ ws)) ≡ length (join w ws) + 2)
unfolding write_of buffer_of
write_of-join count cwd file w ws =
    let at_blank : current_ind (w ∷ ws) - 1 ≡ length (join w ws) =
      omega (arith, current_ind-join w ws) in
    let filled : set (fill (w ∷ ws)) (current_ind (w ∷ ws) - 1) 0 ≡ join w ws ++ 0 ∷ 0 ∷ [] =
      ap (λ l. set l (current_ind (w ∷ ws) - 1) 0) (fill-join w ws)
      ∙ ap (λ n. set (join w ws ++ b' ' ∷ 0 ∷ []) n 0) at_blank
      ∙ set_end (join w ws) b' ' 0 (0 ∷ []) in
    let bytes : total (w ∷ ws) + (length (w ∷ ws) + 1) ≡ length (join w ws) + 2 =
      omega (arith, total-join w ws) in
    (
      ap (λ (b : Str). just count cwd (write file b (total (w ∷ ws) + (length (w ∷ ws) + 1))))
            filled
          ∙ ap (λ (n : ℕ). just count cwd (write file (join w ws ++ 0 ∷ 0 ∷ []) n)) bytes,
      ap length filled ∙ length-append (join w ws) (0 ∷ 0 ∷ []),
    )

module _ (count : ℕ) (cwd : Str) (isalnum : ℕ → Bool) (atoi : Str → ℤ) where
  abbrev pub AllAlnum : List Str → Type 0
  AllAlnum [] = Unit
  AllAlnum (w ∷ ws) = (is_alnum_str isalnum w ≡ true) × AllAlnum ws

  -- The call, unless the buffer is too short.
  abbrev in_buffer : Str → Str → Action
  in_buffer var value =
      if ltb (length value) 505 then just count cwd (set_var var value) else overflow

  in_buffer-long : (var value : Str) → 505 ≤ length value → in_buffer var value ≡ overflow
  in_buffer-long var value h =
      let long : ltb (length value) 505 ≡ false = ground arith in if_false _ _ long

  set_values-join :
      (var buffer v : Str) (vs : List Str)
      → AllAlnum (v ∷ vs)
      → set_values count cwd isalnum atoi var buffer (v ∷ vs) ≡ in_buffer var (buffer ++ join v vs)
  unfolding set_values join
  set_values-join var buffer v [] a = rw (a.0, append-nil v) refl
  set_values-join var buffer v (u ∷ us) a =
      let whole : (buffer ++ (v ++ b' ' ∷ [])) ++ join u us ≡ buffer ++ (v ++ b' ' ∷ join u us) =
        append_assoc buffer (v ++ b' ' ∷ []) (join u us)
        ∙ ap (λ l. buffer ++ l) (append_assoc v (b' ' ∷ []) (join u us)) in
      let rest =
        set_values-join var (buffer ++ (v ++ b' ' ∷ [])) u us a.1 ∙ ap (in_buffer var) whole in
      rw (a.0) (elim (Bool-cases (ltb (length (buffer ++ (v ++ b' ' ∷ []))) 505)) [
        | inl fits ↦ if_true _ _ fits ∙ rest
        | inr long ↦
            if_false _ _ long
            ∙ sym (
                in_buffer-long var (buffer ++ (v ++ b' ' ∷ join u us)) (
                  ground (
                    arith,
                    long,
                    ap length whole,
                    length-append (buffer ++ (v ++ b' ' ∷ [])) (join u us),
                  )))
      ])

  -- `set` with a name and values that are all alphanumeric joins the values with one blank between
  -- two and sets the name to that, if it is shorter than 505 bytes; if not, it writes behind its buffer.
  pub set_of-join :
      (var v : Str) (vs : List Str)
      → AllAlnum (var ∷ v ∷ vs)
      → set_of count cwd isalnum atoi (var ∷ v ∷ vs) ≡ (
          if ltb (length (join v vs)) 505
          then just count cwd (set_var var (join v vs))
          else overflow)
  unfolding set_of
  set_of-join var v vs a = rw (a.0) (set_values-join var [] v vs a.1)
