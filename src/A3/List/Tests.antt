-- ===== src/A3/List/Tests.antt =====
-- The lists of a3/linked_list.c on two dummy nodes and two elements.
use comp310_w.Prelude.{ℕ, ◌==◌, Option, none, some, [], ◌∷◌, ◌≡◌, refl, false, arith}
use comp310_w.A3.List.{
  Ptr, null, Store, LinkedList, Outcome, done, exited, crashed, no_fuel, unlink, add_tail, pop_tail,
  list_init, get_by_value, remove_elem,
}
use comp310_w.A3.List.Nodes.{IsList, insert_at, remove_at}
use comp310_w.A3.List.Ends.{two_nodes, list_init-IsList, add_tail-IsList}
use comp310_w.A3.List.Pops.{Returned}
use comp310_w.A3.List.Removal.{remove_elem-Returned, remove_elem_missing}

-- Nothing has been stored.
abbrev nothing : Store ℕ
nothing = record { payload = λ p. 0; next = λ p. null; prev = λ p. null }

abbrev s0 : LinkedList × Store ℕ
s0 = list_init 10 20 nothing

abbrev s1 : LinkedList × Store ℕ
s1 = add_tail 30 7 s0.0 s0.1

abbrev s2 : LinkedList × Store ℕ
s2 = add_tail 40 9 s1.0 s1.1

abbrev at0 : ℕ → Ptr
at0 = two_nodes 10 20

abbrev at1 : ℕ → Ptr
at1 = insert_at 0 30 at0

abbrev at2 : ℕ → Ptr
at2 = insert_at 1 40 at1

empty : IsList s0.1 s0.0 at0 []
empty = list_init-IsList 10 20 nothing (omega arith) (omega arith) (omega arith)

one : IsList s1.1 s1.0 at1 (7 ∷ [])
one = add_tail-IsList s0.1 s0.0 at0 [] empty 30 (omega arith) (λ i h. ground arith) 7

two : IsList s2.1 s2.0 at2 (7 ∷ 9 ∷ [])
two = add_tail-IsList s1.1 s1.0 at1 (7 ∷ []) one 40 (omega arith) (λ i h. ground arith) 9

-- What is returned, and the node that is the first then.
abbrev taken : Outcome (ℕ × (LinkedList × Store ℕ)) → Option (ℕ × Ptr)
taken (done (d, (list, s))) = some (d, s.next list.dummy_head)
taken exited = none
taken crashed = none
taken no_fuel = none

junk : (5 == s2.1.payload s2.0.dummy_tail) ≡ false
unfolding list_init add_tail
junk = refl

last_of_two : taken (pop_tail s2.0 s2.1) ≡ some (9, 30)
unfolding pop_tail unlink list_init add_tail
last_of_two = refl

add_tail-IsList_example : IsList s2.1 s2.0 at2 (7 ∷ 9 ∷ [])
add_tail-IsList_example =
    add_tail-IsList s1.1 s1.0 at1 (7 ∷ []) one 40 (omega arith) (λ i h. ground arith) 9

remove_elem-Returned_example :
    (k : ℕ) × Returned (remove_elem (λ a b. a == b) 4 9 s2.0 s2.1) 9 (remove_at k at2) (7 ∷ [])
remove_elem-Returned_example =
    remove_elem-Returned (λ a b. a == b) 9 s2.1 s2.0 at2 (7 ∷ 9 ∷ []) two 4 (omega arith) 9 (7 ∷ [])
      refl

-- The last dummy node holds 0 here, which is not the value that is looked for.
remove_elem_missing_example :
    (remove_elem (λ a b. a == b) 4 5 s2.0 s2.1 ≡ crashed)
    × (get_by_value (λ a b. a == b) 4 5 s2.0 s2.1 ≡ crashed)
remove_elem_missing_example =
    remove_elem_missing (λ a b. a == b) 5 s2.1 s2.0 at2 (7 ∷ 9 ∷ []) two 4 (omega arith) refl junk
