-- ===== src/Fs/Path.antt =====
-- Splitting a path (split_path_filename of a3/fs/directory.c).
use mathlib.Core.Bool.{false≢true}
use mathlib.Core.List.{append_assoc, append-nil}
use comp310_w.Prelude.{
  ℕ, ◌==◌, if◌then◌else◌, false, List, [], ◌∷◌, ◌++◌, Str, ◌≡◌, ◌≢◌, sym, ◌∙◌, ap, if_false, arith,
}
use comp310_w.Prelude.Span.{null_string}

abbrev slash : ℕ
slash = 47

-- The words that `strtok_r(s, "/", &p)` finds, one after the other, behind a word that has begun.
unfoldable pub tokens_from : Str → Str → List Str
tokens_from word [] = if null_string word then [] else word ∷ []
tokens_from word (c ∷ s) =
    let next = tokens_from [] s in
    let longer = tokens_from (word ++ c ∷ []) s in
    if c == slash then if null_string word then next else word ∷ next else longer

-- The loop, with what `directory` holds and `last_token`.
unfoldable pub split_loop : Str → Str → List Str → Str × Str
split_loop directory last_token [] = (directory, last_token)
split_loop directory last_token (token ∷ tokens) =
    split_loop
      (if null_string last_token then directory else directory ++ (last_token ++ slash ∷ [])) token
      tokens

-- The first byte of an absolute path goes to the directory.
unfoldable pub absolute : Str → Str
absolute [] = []
absolute (c ∷ s) = if c == slash then slash ∷ [] else []

-- What is written to `directory` and to `filename`.
unfoldable pub split_path_filename : Str → Str × Str
split_path_filename path = split_loop (absolute path) [] (tokens_from [] path)

-- A part of a path: not empty, and without a slash.
abbrev NoSlash : Str → Type 0
NoSlash [] = Unit
NoSlash (c ∷ s) = (c ≢ slash) × NoSlash s

pub record IsPart (word : Str) : Type 0 where
  pub filled : null_string word ≡ false
  pub plain : NoSlash word

abbrev pub AllParts : List Str → Type 0
AllParts [] = Unit
AllParts (w ∷ ws) = IsPart w × AllParts ws

-- The parts, each with a slash behind it.
abbrev pub joined : List Str → Str
joined [] = []
joined (w ∷ ws) = w ++ slash ∷ joined ws

tokens_from-plain :
    (word w rest : Str) → NoSlash w → tokens_from word (w ++ rest) ≡ tokens_from (word ++ w) rest
unfolding tokens_from
tokens_from-plain word [] rest n = ap (λ v. tokens_from v rest) (sym (append-nil word))
tokens_from-plain word (c ∷ w) rest n =
    let other : (c == slash) ≡ false = ground (arith, n.0) in
    if_false _ _ other
    ∙ tokens_from-plain (word ++ c ∷ []) w rest n.1
    ∙ ap (λ v. tokens_from v rest) (append_assoc word (c ∷ []) w)

tokens_from-slash :
    (w rest : Str) → null_string w ≡ false → tokens_from w (slash ∷ rest) ≡ w ∷ tokens_from [] rest
unfolding tokens_from
tokens_from-slash w rest h = if_false _ _ h

tokens_from-joined :
    (ws : List Str) (w : Str)
    → AllParts ws
    → IsPart w
    → tokens_from [] (joined ws ++ w) ≡ ws ++ w ∷ []
unfolding tokens_from
tokens_from-joined [] w a p =
    ap (tokens_from []) (sym (append-nil w))
    ∙ tokens_from-plain [] w [] (p.plain)
    ∙ if_false _ _ (p.filled)
tokens_from-joined (v ∷ ws) w a p =
    ap (tokens_from []) (append_assoc v (slash ∷ joined ws) w)
    ∙ tokens_from-plain [] v (slash ∷ (joined ws ++ w)) (a.0.plain)
    ∙ tokens_from-slash v (joined ws ++ w) (a.0.filled)
    ∙ ap (λ l. v ∷ l) (tokens_from-joined ws w a.1 p)

split_loop-joined :
    (directory v : Str) (ws : List Str) (w : Str)
    → IsPart v
    → AllParts ws
    → split_loop directory v (ws ++ w ∷ []) ≡ (directory ++ joined (v ∷ ws), w)
unfolding split_loop
split_loop-joined directory v [] w p a = ap (λ d. (d, w)) (if_false _ _ (p.filled))
split_loop-joined directory v (u ∷ ws) w p a =
    ap (λ d. split_loop d u (ws ++ w ∷ [])) (if_false _ _ (p.filled))
    ∙ split_loop-joined (directory ++ (v ++ slash ∷ [])) u ws w a.0 a.1
    ∙ ap (λ d. (d, w))
        (append_assoc directory (v ++ slash ∷ []) (joined (u ∷ ws))
          ∙ ap (λ l. directory ++ l) (append_assoc v (slash ∷ []) (joined (u ∷ ws))))

split_loop-parts :
    (directory : Str) (ws : List Str) (w : Str)
    → AllParts ws
    → split_loop directory [] (ws ++ w ∷ []) ≡ (directory ++ joined ws, w)
unfolding split_loop
split_loop-parts directory [] w a = ap (λ d. (d, w)) (sym (append-nil directory))
split_loop-parts directory (v ∷ ws) w a = split_loop-joined directory v ws w a.0 a.1

absolute-IsPart : (w rest : Str) → IsPart w → absolute (w ++ rest) ≡ []
unfolding absolute
absolute-IsPart [] rest p = absurd (false≢true (sym (p.filled)))
absolute-IsPart (c ∷ w) rest p =
    let other : (c == slash) ≡ false = ground (arith, p.plain.0) in if_false _ _ other

absolute-joined :
    (ws : List Str) (w : Str) → AllParts ws → IsPart w → absolute (joined ws ++ w) ≡ []
absolute-joined [] w a p = ap absolute (sym (append-nil w)) ∙ absolute-IsPart w [] p
absolute-joined (v ∷ ws) w a p =
    ap absolute (append_assoc v (slash ∷ joined ws) w) ∙ absolute-IsPart v _ a.0

-- A path of parts, relative or absolute, is split before its last part: `directory` gets all that
-- stands before, with its slash, and `filename` the last part.
pub split_path_filename-joined :
    (ws : List Str) (w : Str)
    → AllParts ws
    → IsPart w
    → (split_path_filename (joined ws ++ w) ≡ (joined ws, w))
      × (split_path_filename (slash ∷ (joined ws ++ w)) ≡ (slash ∷ joined ws, w))
unfolding split_path_filename tokens_from absolute
split_path_filename-joined ws w a p =
    let words = tokens_from-joined ws w a p in
    (
      ap (λ d. split_loop d [] (tokens_from [] (joined ws ++ w))) (absolute-joined ws w a p)
          ∙ ap (split_loop [] []) words
          ∙ split_loop-parts [] ws w a,
      ap (split_loop (slash ∷ []) []) words ∙ split_loop-parts (slash ∷ []) ws w a,
    )
