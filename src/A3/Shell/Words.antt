-- ===== src/A3/Shell/Words.antt =====
-- The tokens and words that `parseInput` of a3/shell.c finds.
use mathlib.Core.List.{append_assoc, append-nil}
use comp310_w.Prelude.{
  ℕ, zero, suc, ◌==◌, ◌||◌, Bool, false, some, List, [], ◌∷◌, ◌++◌, Str, ◌≡◌, refl, sym, ◌∙◌, ap,
  if_false, arith,
}
use comp310_w.Prelude.Span.{
  NoStop, skip_spaces, take_until-append, drop_until-append, take_until-all, drop_until-all,
  null_string,
}
use comp310_w.A3.Shell.{semicolon, skip_semicolons, strtok, words_from, words_of}

abbrev pub separates : ℕ → Bool
separates c = (c == b';') || (c == b' ')

-- A word: not empty, and without blanks and semicolons.
abbrev pub IsWord : Str → Type 0
IsWord [] = ⊥
IsWord (c ∷ w) = NoStop separates (c ∷ w)

abbrev pub AllWords : List Str → Type 0
AllWords [] = Unit
AllWords (w ∷ ws) = IsWord w × AllWords ws

-- A command: blanks in front, a word, and further words with one blank in front of each.
pub record Command : Type 0 where
  pub blanks : ℕ
  pub name : Str
  pub args : List Str

abbrev pub join : Str → List Str → Str
join w [] = w
join w (v ∷ ws) = w ++ b' ' ∷ join v ws

abbrev pub indent : ℕ → Str → Str
indent zero s = s
indent (suc n) s = b' ' ∷ indent n s

abbrev pub text : Command → Str
text c = indent c.blanks (join c.name c.args)

abbrev pub words : Command → List Str
words c = c.name ∷ c.args

abbrev pub IsCommand : Command → Type 0
IsCommand c = IsWord c.name × AllWords c.args

NoStop-append : (stop : ℕ → Bool) (a b : Str) → NoStop stop a → NoStop stop b → NoStop stop (a ++ b)
NoStop-append stop [] b p q = q
NoStop-append stop (x ∷ a) b p q = (p.0, NoStop-append stop a b p.1 q)

NoStop-plain : (w : Str) → NoStop separates w → NoStop semicolon w
NoStop-plain [] n = tt
NoStop-plain (c ∷ w) n = (ground (arith, n.0), NoStop-plain w n.1)

IsWord-plain : (w : Str) → IsWord w → NoStop separates w
IsWord-plain [] n = tt
IsWord-plain (c ∷ w) n = n

join-NoStop : (w : Str) (ws : List Str) → IsWord w → AllWords ws → NoStop semicolon (join w ws)
join-NoStop w [] p a = NoStop-plain w (IsWord-plain w p)
join-NoStop w (v ∷ ws) p a =
    NoStop-append semicolon w (b' ' ∷ join v ws) (NoStop-plain w (IsWord-plain w p))
      (refl, join-NoStop v ws a.0 a.1)

indent-NoStop : (n : ℕ) (s : Str) → NoStop semicolon s → NoStop semicolon (indent n s)
indent-NoStop zero s p = p
indent-NoStop (suc n) s p = (refl, indent-NoStop n s p)

pub text-NoStop : (c : Command) → IsCommand c → NoStop semicolon (text c)
text-NoStop c p = indent-NoStop c.blanks (join c.name c.args) (join-NoStop c.name c.args p.0 p.1)

-- The words of a command are found.
words_from-plain :
    (tmp w s : Str) → NoStop separates w → words_from tmp (w ++ s) ≡ words_from (tmp ++ w) s
unfolding words_from
words_from-plain tmp [] s n = ap (λ t. words_from t s) (sym (append-nil tmp))
words_from-plain tmp (c ∷ w) s n =
    let other : (c == b' ') ≡ false = ground (arith, n.0) in
    if_false _ _ other
    ∙ words_from-plain (tmp ++ c ∷ []) w s n.1
    ∙ ap (λ t. words_from t s) (append_assoc tmp (c ∷ []) w)

null_string-join : (w : Str) (ws : List Str) → IsWord w → null_string (join w ws) ≡ false
null_string-join [] ws p = absurd p
null_string-join (c ∷ w) [] p = refl
null_string-join (c ∷ w) (v ∷ ws) p = refl

words_from-join :
    (w : Str) (ws : List Str) → IsWord w → AllWords ws → words_from [] (join w ws) ≡ w ∷ ws
unfolding words_from
words_from-join w [] p a =
    ap (words_from []) (sym (append-nil w)) ∙ words_from-plain [] w [] (IsWord-plain w p)
words_from-join w (v ∷ ws) p a =
    words_from-plain [] w (b' ' ∷ join v ws) (IsWord-plain w p)
    ∙ ap (λ l. w ∷ l) (if_false _ _ (null_string-join v ws a.0) ∙ words_from-join v ws a.0 a.1)

skip_spaces-join : (w : Str) (ws : List Str) → IsWord w → skip_spaces (join w ws) ≡ join w ws
unfolding skip_spaces
skip_spaces-join [] ws p = absurd p
skip_spaces-join (c ∷ w) [] p =
    let other : (c == b' ') ≡ false = ground (arith, p.0) in if_false _ _ other
skip_spaces-join (c ∷ w) (v ∷ ws) p =
    let other : (c == b' ') ≡ false = ground (arith, p.0) in if_false _ _ other

skip_spaces-indent : (n : ℕ) (s : Str) → skip_spaces (indent n s) ≡ skip_spaces s
unfolding skip_spaces
skip_spaces-indent zero s = refl
skip_spaces-indent (suc n) s = skip_spaces-indent n s

pub words_of-text : (c : Command) → IsCommand c → words_of (text c) ≡ words c
unfolding words_of
words_of-text c p =
    let bare : skip_spaces (text c) ≡ join c.name c.args =
      skip_spaces-indent c.blanks (join c.name c.args) ∙ skip_spaces-join c.name c.args p.0 in
    rw (bare, null_string-join c.name c.args p.0) (words_from-join c.name c.args p.0 p.1)

-- The first token is found.
skip_semicolons-plain :
    (s r : Str) → null_string s ≡ false → NoStop semicolon s → skip_semicolons (s ++ r) ≡ s ++ r
unfolding skip_semicolons
skip_semicolons-plain [] r h n = cc
skip_semicolons-plain (c ∷ s) r h n = if_false _ _ n.0

null_string-append : (s r : Str) → null_string s ≡ false → null_string (s ++ r) ≡ false
null_string-append [] r h = cc
null_string-append (c ∷ s) r h = refl

null_string-text : (c : Command) → IsCommand c → null_string (text c) ≡ false
null_string-text c p = go c.blanks
  where
    go : (n : ℕ) → null_string (indent n (join c.name c.args)) ≡ false
    go zero = null_string-join c.name c.args p.0
    go (suc n) = refl

pub strtok-text :
    (c : Command) (s : Str) → IsCommand c → strtok (text c ++ b';' ∷ s) ≡ (some (text c), s)
unfolding strtok
strtok-text c s p =
    let n = text-NoStop c p in
    let h = null_string-text c p in
    rw
      (
        skip_semicolons-plain (text c) (b';' ∷ s) h n,
        null_string-append (text c) (b';' ∷ s) h,
        take_until-append semicolon (text c) b';' s n refl,
        drop_until-append semicolon (text c) b';' s n refl,
      )
      refl

pub strtok-last : (c : Command) → IsCommand c → strtok (text c) ≡ (some (text c), [])
unfolding strtok
strtok-last c p =
    let n = text-NoStop c p in
    let h = null_string-text c p in
    let all : skip_semicolons (text c) ≡ text c =
      ap skip_semicolons (sym (append-nil (text c)))
      ∙ skip_semicolons-plain (text c) [] h n
      ∙ append-nil (text c) in
    rw (all, h, take_until-all semicolon (text c) n, drop_until-all semicolon (text c) n) refl
