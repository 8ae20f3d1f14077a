-- ===== src/A3/List/Removal.antt =====
-- `remove_elem` and `get_by_value` of a3/linked_list.c against the plain list.
use mathlib.Core.Path.{subst}
use comp310_w.Prelude.{
  ℕ, suc, ◌+◌, ◌<◌, ◌==◌, if◌then◌else◌, Bool, false, none, some, List, ◌∷◌, length, length-append,
  ◌≡◌, refl, sym, ◌∙◌, ap, if_false, arith,
}
use comp310_w.A3.List.{
  Ptr, null, Store, LinkedList, done, crashed, bind, delete, get_by_value, remove_elem,
}
use comp310_w.A3.List.Nodes.{IsList, remove_at}
use comp310_w.A3.List.Pops.{Returned, delete-Returned}
use comp310_w.A3.List.Values.{
  remove_first, found, remove_first-Found, remove_first-NoneEqual, get_node_by_value_found,
  get_node_by_value_missing,
}

module _ {D : Type 0} (equal : D → D → Bool) (target : D) (s : Store D) (list : LinkedList)
    (at : ℕ → Ptr) (xs : List D) (is_list : IsList s list at xs) (fuel : ℕ)
    (enough : suc (length xs) < fuel) where
  -- On a structure that stands for `xs`, with fuel for one step more than it has elements: if `d` is the
  -- first element that is equal to the one looked for and `others` are the rest, `remove_elem` returns
  -- `d` and leaves a structure that stands for `others`.
  pub remove_elem-Returned :
      (d : D) (others : List D)
      → remove_first equal target xs ≡ some (d, others)
      → (k : ℕ) × Returned (remove_elem equal fuel target list s) d (remove_at k at) others
  unfolding remove_elem
  remove_elem-Returned d others h = elim (remove_first-Found equal target xs d others h) [
    | found ys zs whole rest none_equal hit ↦
        let node = at (suc (length ys)) in
        let long : length xs ≡ length ys + suc (length zs) =
          ap length whole ∙ length-append ys (d ∷ zs) in
        let there : (node == null) ≡ false =
          let t = is_list.there (suc (length ys)) (omega (arith, long)) in ground arith in
        let here =
          get_node_by_value_found s list at xs is_list equal target ys d zs fuel whole none_equal
            hit (omega (arith, enough)) in
        (
          length ys,
          subst (λ o. Returned o d (remove_at (length ys) at) others)
              (sym (
                ap (λ o. bind o (λ n. if n == null then crashed else done (delete n list s))) here
                ∙ if_false _ _ there))
              (rw rest (
                delete-Returned s list at ys d zs node (subst (IsList s list at) whole is_list)
                  refl)),
        )
  ]

  -- On a structure that stands for `xs`, with fuel for one step more than it has elements: if no element
  -- is equal to the one looked for, nor what the dummy node at the end happens to hold, `remove_elem` and
  -- `get_by_value` read the null pointer.
  pub remove_elem_missing :
      remove_first equal target xs ≡ none
      → equal target (s.payload list.dummy_tail) ≡ false
      → (remove_elem equal fuel target list s ≡ crashed)
        × (get_by_value equal fuel target list s ≡ crashed)
  unfolding remove_elem get_by_value
  remove_elem_missing h junk =
      let none_equal = remove_first-NoneEqual equal target xs h in
      let gone =
        get_node_by_value_missing s list at xs is_list equal target fuel none_equal junk enough in
      (
        ap (λ o. bind o (λ n. if n == null then crashed else done (delete n list s))) gone,
        ap (λ o. bind o (λ n. if n == null then crashed else done (s.payload n))) gone,
      )
