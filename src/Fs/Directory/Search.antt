-- ===== src/Fs/Directory/Search.antt =====
-- What the loops over the entries of a directory find (lookup and dir_add of a3/fs/directory.c).
use mathlib.Core.Option.{some-injective, none-ne-some}
use comp310_w.Prelude.{
  ℕ, zero, suc, ◌+◌, ◌≤◌, ◌<◌, if◌then◌else◌, ◌&&◌, not, Bool, true, false, none, some, Str, str_eq,
  ◌≡◌, refl, sym, ◌∙◌, ap, inl, inr, Bool-cases, Option-cases, if_true, if_false, arith,
}
use native.Mathlib.Decide.{ℕ_discrete}
use comp310_w.Fs.Directory.{DirEntry, Files, lookup_from, slot_from}

module _ {S : Type 0} (files : Files S) (unset : DirEntry) (dir : ℕ) (s : S) where
  -- An entry that is there.
  abbrev pub There : ℕ → DirEntry → Type 0
  There i e = files.read dir i s ≡ some e

  -- The test of `lookup`.
  abbrev pub matches : Str → DirEntry → Bool
  matches name e = e.in_use && str_eq name e.name

  module _ (k ofs : ℕ) (name : Str) where
    lookup_turn :
        (e : DirEntry)
        → There ofs e
        → lookup_from files unset (suc k) dir name ofs s ≡ (
            if matches name e
            then some (some (e, ofs))
            else lookup_from files unset k dir name (ofs + 1) s)
    unfolding lookup_from
    lookup_turn e h = rw (lookup_from, h) refl

    lookup_end :
        files.read dir ofs s ≡ none → lookup_from files unset (suc k) dir name ofs s ≡ some none
    unfolding lookup_from
    lookup_end h = rw (lookup_from, h) refl

  -- An entry that matches and that the loop comes to first is the result.
  pub lookup_from-hit :
      (k ofs i : ℕ) (name : Str) (e : DirEntry)
      → ofs ≤ i
      → i < ofs + k
      → There i e
      → matches name e ≡ true
      → ((j : ℕ) → ofs ≤ j → j < i → (c : DirEntry) × There j c × (matches name c ≡ false))
      → lookup_from files unset k dir name ofs s ≡ some (some (e, i))
  lookup_from-hit zero ofs i name e low high there hit before = absurd (omega arith)
  lookup_from-hit (suc k) ofs i name e low high there hit before = elim (ℕ_discrete ofs i) [
    | yes same ↦
        lookup_turn k ofs name e (rw same there)
        ∙ if_true _ _ hit
        ∙ ap (λ n. some (some (e, n))) same
    | no ne ↦
        let (c, read, miss) = before ofs (omega arith) (omega (arith, ne)) in
        lookup_turn k ofs name c read
        ∙ if_false _ _ miss
        ∙ lookup_from-hit k (ofs + 1) i name e (omega (arith, ne)) (omega arith) there hit
            (λ j a b. before j (omega arith) b)
  ]

  -- Where the result is that there is none, no entry before the end of the file matches.
  pub lookup_from-missing :
      (k ofs i : ℕ) (name : Str)
      → lookup_from files unset k dir name ofs s ≡ some none
      → ofs ≤ i
      → ((j : ℕ) → ofs ≤ j → j ≤ i → (c : DirEntry) × There j c)
      → (c : DirEntry) → There i c
      → matches name c ≡ false
  unfolding lookup_from
  lookup_from-missing zero ofs i name h low all c there = absurd (none-ne-some _ h)
  lookup_from-missing (suc k) ofs i name h low all c there =
      let (b, read) = all ofs (omega arith) low in
      elim (Bool-cases (matches name b)) [
        | inl hit ↦ absurd (
            none-ne-some _
              (some-injective _ _ (sym h ∙ lookup_turn k ofs name b read ∙ if_true _ _ hit)))
        | inr miss ↦ elim (ℕ_discrete ofs i) [
          | yes same ↦
              let one : b ≡ c =
                some-injective b c (sym read ∙ ap (λ n. files.read dir n s) same ∙ there) in
              ap (matches name) (sym one) ∙ miss
          | no ne ↦
              lookup_from-missing k (ofs + 1) i name
                (sym (if_false _ _ miss) ∙ sym (lookup_turn k ofs name b read) ∙ h)
                (omega (arith, ne)) (λ j a d. all j (omega arith) d) c there
        ]
      ]

  -- The slot that `dir_add` takes: behind entries that are in use, and free or the end.
  pub record Slot (ofs i : ℕ) : Type 0 where
    pub low : ofs ≤ i
    pub used : (j : ℕ) → ofs ≤ j → j < i → (c : DirEntry) × There j c × (c.in_use ≡ true)
    pub free : (c : DirEntry) → There i c → c.in_use ≡ false

  slot_end :
      (k ofs : ℕ) → files.read dir ofs s ≡ none → slot_from files unset (suc k) dir ofs s ≡ some ofs
  unfolding slot_from
  slot_end k ofs h = rw (slot_from, h) refl

  slot_turn :
      (k ofs : ℕ) (e : DirEntry)
      → There ofs e
      → slot_from files unset (suc k) dir ofs s
        ≡ (if not (e.in_use) then some ofs else slot_from files unset k dir (ofs + 1) s)
  unfolding slot_from
  slot_turn k ofs e h = rw (slot_from, h) refl

  -- The loop stopped where it started.
  Slot-here : (ofs i : ℕ) → ofs ≡ i → ((c : DirEntry) → There ofs c → c.in_use ≡ false) → Slot ofs i
  Slot-here ofs i same free = record {
    low = omega (arith, same);
    used = λ j a b. absurd (omega (arith, same));
    free = λ c there. free c (ap (λ n. files.read dir n s) same ∙ there);
  }

  pub slot_from-Slot :
      (k ofs i : ℕ) → slot_from files unset k dir ofs s ≡ some i → Slot ofs i × (i < ofs + k)
  unfolding slot_from
  slot_from-Slot zero ofs i h = absurd (none-ne-some _ h)
  slot_from-Slot (suc k) ofs i h = elim (Option-cases (files.read dir ofs s)) [
    | inl none_there ↦
        let same : ofs ≡ i = some-injective ofs i (sym (slot_end k ofs none_there) ∙ h) in
        (
          Slot-here ofs i same (λ c there. absurd (none-ne-some c (sym none_there ∙ there))),
          omega (arith, same),
        )
    | inr (e, there) ↦ elim (Bool-cases (e.in_use)) [
      | inr off ↦
          let same : ofs ≡ i =
            some-injective ofs i
              (sym (if_true _ _ (ap not off)) ∙ sym (slot_turn k ofs e there) ∙ h) in
          (
            Slot-here ofs i same (λ c read.
                ap (λ (c : DirEntry). c.in_use) (some-injective c e (sym read ∙ there)) ∙ off),
            omega (arith, same),
          )
      | inl on ↦
          let (rest, bound) =
            slot_from-Slot k (ofs + 1) i
              (sym (if_false _ _ (ap not on)) ∙ sym (slot_turn k ofs e there) ∙ h) in
          (
            record {
              low = omega (arith, rest.low);
              used = λ j a b. elim (ℕ_discrete ofs j) [
                | yes same ↦ (e, ap (λ n. files.read dir n s) (sym same) ∙ there, on)
                | no ne ↦ rest.used j (omega (arith, ne)) b
              ];
              free = rest.free;
            },
            omega (arith, bound),
          )
    ]
  ]
