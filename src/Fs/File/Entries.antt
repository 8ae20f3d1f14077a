-- ===== src/Fs/File/Entries.antt =====
-- The names of the table of open files (a3/fs/file.c).
use mathlib.Core.Path.{subst}
use mathlib.Core.Bool.{false≢true}
use comp310_w.Prelude.{
  true, false, if◌then◌else◌, none, some, List, [], ◌∷◌, ℕ, Str, str_eq, eq_of_str_eq, str_eq_refl,
  str_eq_ne, ◌≡◌, ◌≢◌, refl, sym, ◌∙◌, ap, if_true, if_false, Bool-cases, inl, inr,
}
use comp310_w.Fs.File.{
  Table, Inodes, find, without, file_allow_write, file_close, remove_from_file_table,
}

-- No name stands in the table twice.
abbrev pub Once : List (Str × ℕ) → Type 0
Once [] = Unit
Once ((name, f) ∷ entries) = (find name entries ≡ none) × Once entries

module _ (fname : Str) where
  without-same :
      (entries : List (Str × ℕ)) → Once entries → find fname (without fname entries) ≡ none
  unfolding find without
  without-same [] o = refl
  without-same ((name, f) ∷ entries) o = elim (Bool-cases (str_eq name fname)) [
    | inl hit ↦
        ap (find fname) (if_true _ _ hit)
        ∙ ap (λ n. find n entries) (sym (eq_of_str_eq name fname hit))
        ∙ o.0
    | inr miss ↦ ap (find fname) (if_false _ _ miss) ∙ if_false _ _ miss ∙ without-same entries o.1
  ]

  without-other :
      (g : Str) (entries : List (Str × ℕ))
      → g ≢ fname
      → find g (without fname entries) ≡ find g entries
  unfolding find without
  without-other g [] ne = refl
  without-other g ((name, f) ∷ entries) ne = elim (Bool-cases (str_eq name fname)) [
    | inl hit ↦
        let apart : str_eq name g ≡ false =
          str_eq_ne name g (λ e. ne (sym e ∙ eq_of_str_eq name fname hit)) in
        ap (find g) (if_true _ _ hit) ∙ sym (if_false _ _ apart)
    | inr miss ↦
        ap (find g) (if_false _ _ miss)
        ∙ ap (λ r. if str_eq name g then some f else r) (without-other g entries ne)
  ]

  without-Once : (entries : List (Str × ℕ)) → Once entries → Once (without fname entries)
  unfolding without
  without-Once [] o = tt
  without-Once ((name, f) ∷ entries) o = elim (Bool-cases (str_eq name fname)) [
    | inl hit ↦ subst Once (sym (if_true _ _ hit)) o.1
    | inr miss ↦
        let apart : name ≢ fname =
          λ e. false≢true (sym miss ∙ ap (λ n. str_eq n fname) e ∙ str_eq_refl fname) in
        subst Once (sym (if_false _ _ miss))
          (without-other name entries apart ∙ o.0, without-Once entries o.1)
  ]

module _ {S : Type 0} (inodes : Inodes S) where
  file_close-entries : (f : ℕ) (t : Table S) → (file_close inodes f t).entries ≡ t.entries
  unfolding file_close file_allow_write
  file_close-entries f t = elim (Bool-cases ((t.files f).deny_write)) [
    | inl denied ↦ ap (λ (n : Table S). n.entries) (if_true _ _ denied)
    | inr free ↦ ap (λ (n : Table S). n.entries) (if_false _ _ free)
  ]

  -- If no name stands in the table twice, and the name is one of an open file, then after
  -- `remove_from_file_table` the name is not found any more, every other name is found as before, and
  -- no name stands in the table twice.
  pub remove_from_file_table-find :
      (fname : Str) (f : ℕ) (t : Table S)
      → Once t.entries
      → find fname t.entries ≡ some f
      → (t' : Table S) × (remove_from_file_table inodes fname t ≡ (true, t'))
        × (find fname t'.entries ≡ none)
        × ((g : Str) → g ≢ fname → find g t'.entries ≡ find g t.entries)
        × Once t'.entries
  unfolding remove_from_file_table
  remove_from_file_table-find fname f t once found =
      let closed = file_close inodes f t in
      let same : closed.entries ≡ t.entries = file_close-entries f t in
      let t' : Table S = record closed { entries = without fname closed.entries } in
      let left : t'.entries ≡ without fname t.entries = ap (without fname) same in
      (
        t',
        rw (found, remove_from_file_table) refl,
        ap (find fname) left ∙ without-same fname t.entries once,
        λ g ne. ap (find g) left ∙ without-other fname g t.entries ne,
        subst Once (sym left) (without-Once fname t.entries once),
      )
