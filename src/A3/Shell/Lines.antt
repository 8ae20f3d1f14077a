-- ===== src/A3/Shell/Lines.antt =====
-- Which commands of a line `parseInput` of a3/shell.c runs.
use mathlib.Core.Path.{subst}
use comp310_w.Prelude.{
  ℕ, zero, suc, ◌≤◌, ◌<◌, ltb, if◌then◌else◌, Bool, true, false, Option, none, some, List, [], ◌∷◌,
  ◌++◌, length, Str, ◌≡◌, refl, sym, ◌∙◌, ap, if_true, if_false, arith, inl, inr, Bool-cases,
}
use comp310_w.Prelude.Int.{ℤ, pos}
use comp310_w.Prelude.Span.{null_string}
use comp310_w.A3.Shell.{
  is_minus_one, skip_semicolons, strtok, words_of, Program, Parsed, returned, overflow, no_fuel,
  parse_tokens, parse_input,
}
use comp310_w.A3.Shell.Words.{
  Command, IsCommand, text, words, words_of-text, strtok-text, strtok-last,
}

-- A line: commands with a semicolon between two.
abbrev pub line : Command → List Command → Str
line c [] = text c
line c (d ∷ cs) = text c ++ b';' ∷ line d cs

-- Commands whose words fit into the array.
abbrev pub Fits : Command → Type 0
Fits c = IsCommand c × (length (words c) ≤ 100)

abbrev pub AllFit : List Command → Type 0
AllFit [] = Unit
AllFit (c ∷ cs) = Fits c × AllFit cs

if_same : {A : Type 0} (b : Bool) (x : A) → (if b then x else x) ≡ x
if_same true x = refl
if_same false x = refl

strtok-empty : strtok [] ≡ (none, [])
unfolding strtok skip_semicolons
strtok-empty = refl

module _ {T : Type 0} where
  step :
      (interpreter : List Str → Program T → ℤ × Program T) (k : ℕ) (c : Command) (ret : ℤ)
      (s : Program T) (next : Option Str) (saved : Str)
      → Fits c
      → strtok ((interpreter (words c) s).1.saved) ≡ (next, saved)
      → parse_tokens interpreter (suc k) (some (text c)) ret s ≡ (
          let called = interpreter (words c) s in
          let s2 = record called.1 { saved = saved } in
          if is_minus_one called.0
          then returned called.0 s2
          else parse_tokens interpreter k next called.0 s2)
  unfolding parse_tokens
  step interpreter k c ret s next saved fits e =
      let found = words_of-text c fits.0 in
      let few : ltb 100 (length (words c)) ≡ false = let l = fits.1 in ground arith in
      rw (found, few, e) refl

  -- The specification: the commands one after the other, until one returns -1.
  module _ (call : List Str → T → ℤ × T) where
    unfoldable pub run_line : Command → List Command → T → ℤ × T
    run_line c [] t = call (words c) t
    run_line c (d ∷ cs) t =
        let called = call (words c) t in
        let others = run_line d cs called.1 in if is_minus_one called.0 then called else others

    -- An interpreter that leaves alone what `strtok` keeps.
    abbrev pub plain : List Str → Program T → ℤ × Program T
    plain ws s = let called = call ws s.rest in (called.0, record s { rest = called.1 })

    -- `parseInput` returns with this code and state, whatever `strtok` keeps.
    abbrev pub outcome : Str → ℤ × T → Parsed T
    outcome saved r = returned r.0 (record { saved = saved; rest = r.1 })

    abbrev pub Ends : Parsed T → ℤ × T → Type 0
    Ends parsed r = (saved : Str) × (parsed ≡ outcome saved r)

    behind_first : List Command → Str
    behind_first [] = []
    behind_first (d ∷ cs) = line d cs

    strtok-line :
        (c : Command) (cs : List Command)
        → IsCommand c
        → strtok (line c cs) ≡ (some (text c), behind_first cs)
    unfolding behind_first
    strtok-line c [] p = strtok-last c p
    strtok-line c (d ∷ cs) p = strtok-text c (line d cs) p

    parse_tokens-none :
        (k : ℕ) (ret : ℤ) (s : Program T) → 0 < k → parse_tokens plain k none ret s ≡ returned ret s
    unfolding parse_tokens
    parse_tokens-none zero ret s h = absurd (omega arith)
    parse_tokens-none (suc k) ret s h = refl

    parse_tokens-run_line :
        (c : Command) (cs : List Command) (k : ℕ) (ret : ℤ) (t : T)
        → AllFit (c ∷ cs)
        → suc (length cs) < k
        → Ends
            (parse_tokens plain k
              (some (text c))
              ret
              (record { saved = behind_first cs; rest = t }))
            (run_line c cs t)
    unfolding run_line behind_first
    parse_tokens-run_line c cs zero ret t fit enough = absurd (omega arith)
    parse_tokens-run_line c [] (suc k) ret t fit enough =
        let called = call (words c) t in
        let s : Program T = record { saved = []; rest = t } in
        let s2 : Program T = record { saved = []; rest = called.1 } in
        let last = parse_tokens-none k called.0 s2 (omega arith) in
        (
          [],
          step plain k c ret s none [] fit.0 strtok-empty
              ∙ ap (λ x. if is_minus_one called.0 then returned called.0 s2 else x) last
              ∙ if_same (is_minus_one called.0) (returned called.0 s2),
        )
    parse_tokens-run_line c (d ∷ cs) (suc k) ret t fit enough =
        let called = call (words c) t in
        let s : Program T = record { saved = line d cs; rest = t } in
        let s2 : Program T = record { saved = behind_first cs; rest = called.1 } in
        let turn =
          step plain k c ret s (some (text d)) (behind_first cs) fit.0
            (strtok-line d cs (fit.1.0.0)) in
        elim (Bool-cases (is_minus_one called.0)) [
          | inl last ↦ (
            behind_first cs,
            turn ∙ if_true _ _ last ∙ ap (outcome (behind_first cs)) (sym (if_true _ _ last)),
          )
          | inr more ↦
              let (saved, e) = parse_tokens-run_line d cs k called.0 called.1 fit.1 (omega arith) in
              (saved, turn ∙ if_false _ _ more ∙ e ∙ ap (outcome saved) (sym (if_false _ _ more)))
        ]

    -- For any commands of words without blanks and semicolons, of at most 100 words each, with a
    -- semicolon between two commands: with fuel for one step more than there are commands, `parseInput`
    -- runs the commands in their order until one returns -1, and returns the code of the last one that
    -- ran, if no command calls `strtok` itself.
    pub parse_input-run_line :
        (c : Command) (cs : List Command) (fuel : ℕ) (s : Program T)
        → AllFit (c ∷ cs)
        → suc (length cs) < fuel
        → Ends (parse_input plain fuel (line c cs) s) (run_line c cs s.rest)
    unfolding parse_input
    parse_input-run_line c cs fuel s fit enough =
        subst
          (λ f.
            Ends (parse_tokens plain fuel f.0 (pos 0) (record s { saved = f.1 }))
              (run_line c cs s.rest))
          (sym (strtok-line c cs fit.0.0))
          (parse_tokens-run_line c cs fuel (pos 0) s.rest fit enough)

  -- A call that ends with another code than -1 leaves nothing to `strtok`.
  module _ (interpreter : List Str → Program T → ℤ × Program T) where
    strtok-none : (s saved : Str) → strtok s ≡ (none, saved) → saved ≡ []
    unfolding strtok
    strtok-none s saved e = elim (Bool-cases (null_string (skip_semicolons s))) [
      | inl empty ↦ ap (λ (p : Option Str × Str). p.1) (sym e ∙ if_true _ _ empty)
      | inr filled ↦
          let wrong = ap (λ (p : Option Str × Str). p.0) (sym e ∙ if_false _ _ filled) in cc
    ]

    abbrev state_of : Program T → Parsed T → Program T
    state_of d (returned code s) = s
    state_of d overflow = d
    state_of d no_fuel = d

    abbrev code_of : ℤ → Parsed T → ℤ
    code_of d (returned code s) = code
    code_of d overflow = d
    code_of d no_fuel = d

    parse_tokens_saved :
        (k : ℕ) (tokens : Option Str) (ret : ℤ) (s : Program T) (code : ℤ) (s' : Program T)
        → ((tokens ≡ none) → s.saved ≡ [])
        → is_minus_one code ≡ false
        → parse_tokens interpreter k tokens ret s ≡ returned code s'
        → s'.saved ≡ []
    unfolding parse_tokens
    parse_tokens_saved zero tokens ret s code s' none_left go_on e = cc
    parse_tokens_saved (suc k) none ret s code s' none_left go_on e =
        ap (λ (p : Program T). p.saved) (sym (ap (state_of s) e)) ∙ none_left refl
    parse_tokens_saved (suc k) (some token) ret s code s' none_left go_on e =
        let called = interpreter (words_of token) s in
        let next = strtok called.1.saved in
        let s2 : Program T = record called.1 { saved = next.1 } in
        elim (Bool-cases (ltb 100 (length (words_of token)))) [
          | inl many ↦ let wrong = sym (if_true _ _ many) ∙ e in cc
          | inr few ↦ elim (Bool-cases (is_minus_one called.0)) [
            | inl stop ↦
                let same = sym (if_true _ _ stop) ∙ sym (if_false _ _ few) ∙ e in
                let codes_same : called.0 ≡ code = ap (code_of called.0) same in
                let wrong = sym stop ∙ ap is_minus_one codes_same ∙ go_on in cc
            | inr more ↦
                parse_tokens_saved k next.0 called.0 s2 code s'
                  (λ h. strtok-none called.1.saved next.1 (ap (λ (o : Option Str). (o, next.1)) h))
                  go_on (sym (if_false _ _ more) ∙ sym (if_false _ _ few) ∙ e)
          ]
        ]

    parse_input_saved :
        (fuel : ℕ) (ui : Str) (t t' : Program T) (code : ℤ)
        → is_minus_one code ≡ false
        → parse_input interpreter fuel ui t ≡ returned code t'
        → t'.saved ≡ []
    unfolding parse_input
    parse_input_saved fuel ui t t' code on e =
        parse_tokens_saved fuel (strtok ui).0 (pos 0) (record t { saved = (strtok ui).1 }) code t'
          (λ h. strtok-none ui (strtok ui).1 (ap (λ (o : Option Str). (o, (strtok ui).1)) h)) on e

-- If the first command of a line, of at most 100 words without blanks and semicolons in them, calls
-- `parseInput` itself, on any string and with any state, as `run` and `exec` do for each line of a
-- script; if the last such call returns another code than -1, and the command then leaves alone what
-- that call left `strtok` and returns another code than -1: then the commands behind the semicolon
-- are not run, whatever they are. `parseInput` returns the code of the first command, and the state
-- is the one that command left.
pub parse_input_nested :
    {T U : Type 0} (interpreter : List Str → Program T → ℤ × Program T)
    (within : List Str → Program U → ℤ × Program U) (c : Command) (more : Str) (fuel inner : ℕ)
    (s s1 : Program T) (ui : Str) (t t' : Program U) (code code' : ℤ)
    → Fits c
    → 2 ≤ fuel
    → parse_input within inner ui t ≡ returned code' t'
    → is_minus_one code' ≡ false
    → interpreter (words c) (record s { saved = more }) ≡ (code, s1)
    → s1.saved ≡ t'.saved
    → is_minus_one code ≡ false
    → parse_input interpreter fuel (text c ++ b';' ∷ more) s ≡ returned code s1
unfolding parse_input parse_tokens
parse_input_nested {T = T} interpreter within c more zero inner s s1 ui t t' code code' fits enough
      nested on' calls kept on =
    absurd (omega arith)
parse_input_nested {T = T} interpreter within c more (suc zero) inner s s1 ui t t' code code' fits
      enough nested on' calls kept on =
    absurd (omega arith)
parse_input_nested {T = T} interpreter within c more (suc (suc k)) inner s s1 ui t t' code code'
      fits enough nested on' calls kept on =
    let left : s1.saved ≡ [] = kept ∙ parse_input_saved within inner ui t t' code' on' nested in
    let s0 : Program T = record s { saved = more } in
    ap
      (λ (f : Option Str × Str).
        parse_tokens interpreter (suc (suc k)) f.0 (pos 0) (record s { saved = f.1 }))
      (strtok-text c more fits.0)
    ∙ step interpreter (suc k) c (pos 0) s0 none [] fits
        (ap (λ (r : ℤ × Program T). strtok r.1.saved) calls ∙ ap strtok left ∙ strtok-empty)
    ∙ ap
        (λ (r : ℤ × Program T).
          if is_minus_one r.0
          then returned r.0 (record r.1 { saved = [] })
          else parse_tokens interpreter (suc k) none r.0 (record r.1 { saved = [] }))
        calls
    ∙ if_false _ _ on
    ∙ ap (λ (v : Str). returned code (record s1 { saved = v })) (sym left)
