-- ===== src/Fs/Directory/Adding.antt =====
-- Looking up a name that was added (dir_add and dir_lookup of a3/fs/directory.c).
use mathlib.Core.Path.{subst}
use mathlib.Core.Bool.{false≢true}
use mathlib.Core.Option.{some-injective, none-ne-some}
use comp310_w.Prelude.{
  ℕ, ◌<◌, ltb, ◌||◌, Bool, true, false, none, some, Str, str_eq_refl, length, ◌≡◌, ◌≢◌, refl, sym,
  ◌∙◌, ap, inl, inr, Bool-cases, Option-cases, if_true, if_false, arith,
}
use comp310_w.Prelude.Span.{null_string}
use comp310_w.Fs.Directory.{
  DirEntry, Files, name_max, lookup, slot_from, set_parent, add_entry, dir_add,
}
use comp310_w.Fs.Directory.Search.{matches, lookup_from-hit, lookup_from-missing, slot_from-Slot}

-- The write of an entry: the entry is read back, and those before it are as they were.
pub record Kept {S : Type 0} (files : Files S) (dir i : ℕ) (e : DirEntry) (s : S) : Type 0 where
  pub written : files.read dir i ((files.write dir i e s).1) ≡ some e
  pub before : (j : ℕ) → j < i → files.read dir j ((files.write dir i e s).1) ≡ files.read dir j s

-- The entry that `dir_add` writes.
abbrev pub entry_of : ℕ → Str → DirEntry
entry_of sector name = record { inode_sector = sector; name = name; in_use = true }

module _ {S : Type 0} (files : Files S) (unset : DirEntry) where
  set_parent-file : (dir child : ℕ) (s : S) → set_parent files unset dir child false s ≡ (true, s)
  unfolding set_parent
  set_parent-file dir child s = refl

  -- The way of `dir_add` to success.
  record Added (fuel dir : ℕ) (name : Str) (sector : ℕ) (s s1 s' : S) : Type 0 where
    missing : lookup files unset fuel dir name s ≡ some none
    added : add_entry files unset fuel dir name sector s1 ≡ some (true, s')

  dir_add-Added :
      (fuel dir : ℕ) (name : Str) (sector : ℕ) (is_dir : Bool) (s s' : S)
      → dir_add files unset fuel dir name sector is_dir s ≡ some (true, s')
      → Added fuel dir name sector s ((set_parent files unset dir sector is_dir s).1) s'
  unfolding dir_add
  dir_add-Added fuel dir name sector is_dir s s' h =
      let parent = set_parent files unset dir sector is_dir s in
      let failed : (t : S) → dir_add files unset fuel dir name sector is_dir s ≢ some (false, t) =
        λ t e. false≢true (ap (λ (r : Bool × S). r.0) (some-injective _ _ (sym e ∙ h))) in
      elim (Bool-cases (null_string name || ltb name_max (length name))) [
        | inl short ↦ absurd (failed s (if_true _ _ short))
        | inr valid ↦ elim (Option-cases (lookup files unset fuel dir name s)) [
          | inl l ↦ absurd (none-ne-some _ (sym (if_false _ _ valid ∙ rw l refl) ∙ h))
          | inr (found, l) ↦ elim (Option-cases found) [
            | inr (x, f) ↦ absurd (failed s (if_false _ _ valid ∙ rw (l, f) refl))
            | inl f ↦ elim (Bool-cases (parent.0)) [
              | inr off ↦ absurd (failed (parent.1) (if_false _ _ valid ∙ rw (l, f, off) refl))
              | inl on ↦ record {
                missing = l ∙ ap some f;
                added = sym (if_false _ _ valid ∙ rw (l, f, on) refl) ∙ h;
              }
            ]
          ]
        ]
      ]

  add_entry-written :
      (fuel dir : ℕ) (name : Str) (sector : ℕ) (s s' : S)
      → add_entry files unset fuel dir name sector s ≡ some (true, s')
      → (i : ℕ) × (slot_from files unset fuel dir 0 s ≡ some i)
        × (files.write dir i (entry_of sector name) s ≡ (true, s'))
  unfolding add_entry
  add_entry-written fuel dir name sector s s' h =
      elim (Option-cases (slot_from files unset fuel dir 0 s)) [
        | inl e ↦
            let stuck : add_entry files unset fuel dir name sector s ≡ none =
              rw (add_entry, e) refl in
            absurd (none-ne-some _ (sym stuck ∙ h))
        | inr (i, e) ↦
            let goes : add_entry files unset fuel dir name sector s
                ≡ some (files.write dir i (entry_of sector name) s) =
              rw (add_entry, e) refl in
            (i, e, some-injective _ _ (sym goes ∙ h))
      ]

  -- A file that was added is found, if the write into the free slot keeps the entries before it.
  pub dir_add-found :
      (fuel dir : ℕ) (name : Str) (sector : ℕ) (s s' : S) (parent : DirEntry)
      → files.read dir 0 s ≡ some parent
      → parent.in_use ≡ true
      → ((i : ℕ)
          → slot_from files unset fuel dir 0 s ≡ some i
          → Kept files dir i (entry_of sector name) s)
      → dir_add files unset fuel dir name sector false s ≡ some (true, s')
      → (i : ℕ) × (lookup files unset fuel dir name s' ≡ some (some (entry_of sector name, i)))
  unfolding lookup
  dir_add-found fuel dir name sector s s' parent there on keeps h =
      let a =
        subst (λ t. Added fuel dir name sector s t s')
          (ap (λ (r : Bool × S). r.1) (set_parent-file dir sector s))
          (dir_add-Added fuel dir name sector false s s' h) in
      let (i, slot, write) = add_entry-written fuel dir name sector s s' (a.added) in
      let (free, bound) = slot_from-Slot files unset dir s fuel 0 i slot in
      let kept = keeps i slot in
      let e = entry_of sector name in
      let after : (files.write dir i e s).1 ≡ s' = ap (λ (r : Bool × S). r.1) write in
      let present : (j : ℕ) → j < i → (c : DirEntry) × (files.read dir j s ≡ some c) =
        λ j b. let (c, read, _) = free.used j (omega arith) b in (c, read) in
      let behind : i ≢ 0 =
        λ z. false≢true (sym (free.free parent (ap (λ n. files.read dir n s) z ∙ there)) ∙ on) in
      let hit : matches files unset dir s' name e ≡ true = str_eq_refl name in
      (
        i,
        lookup_from-hit files unset dir s' fuel 1 i name e (omega (arith, behind))
            (omega (arith, bound)) (ap (files.read dir i) (sym after) ∙ kept.written) hit
            (λ j low high.
              let (c, read) = present j high in
              (
                c,
                ap (files.read dir j) (sym after) ∙ kept.before j high ∙ read,
                lookup_from-missing files unset dir s fuel 1 j name (a.missing) low
                    (λ l b d. present l (omega arith)) c read,
              )),
      )
