-- ===== src/Dll/Tests.antt =====
-- The list of src/std_llist.c on concrete links: sentinels at 1 and 2, nodes from 3 on.
use mathlib.Core.List.{Perm}
use sonic_common_utils.Base.{
  ℕ, ◌≡◌, refl, true, false, none, some, List, [], ◌∷◌, arith, ltb, if◌then◌else◌, put,
}
use sonic_common_utils.Base.Int.{ℤ}
use sonic_common_utils.Dll.{
  Links, Head, std_dll_init_sort, std_dll_getfirst, std_dll_getnext, std_dll_insertatfront,
  std_dll_insertatback, std_dll_insertafter, std_dll_remove, std_dll_insert,
}
use sonic_common_utils.Dll.Linked.{IsList}
use sonic_common_utils.Dll.Edit.{IsNew, insertafter-IsList, insertatback-IsList, remove-IsList}
use sonic_common_utils.Dll.Walk.{visit, visit_all}
use sonic_common_utils.Dll.Sorted.{
  place, Inserted, std_dll_insert-place, std_dll_insert-InOrder, InOrder, less,
}

-- The key of a node is its address.
abbrev by_address : ℕ → ℕ → ℤ
by_address a b = if ltb a b then ℤ.negsuc 0 else if ltb b a then ℤ.pos 1 else ℤ.pos 0

abbrev sorted_head : Head
sorted_head = record { head = 1; tail = 2; compare = some by_address }

-- The nodes 4 and 7.
abbrev links : Links
links = record {
  next = put (put (put (λ _. 0) 1 4) 4 7) 7 2;
  back = put (put (put (λ _. 0) 4 1) 7 4) 2 7;
}

links-IsList : IsList sorted_head links (4 ∷ 7 ∷ [])
unfolding put
links-IsList = record {
  linked = (refl, refl, (refl, refl, (refl, refl, tt)));
  distinct = omega arith;
  not_null = omega arith;
}

five-IsNew : IsNew sorted_head (4 ∷ 7 ∷ []) 5
five-IsNew = omega arith

filled :
    let (d, s) = std_dll_init_sort 1 2 by_address (record { next = λ _. 0; back = λ _. 0 }) in
    elim (std_dll_insert 9 d (std_dll_insertatback d (std_dll_insertatfront d s 4) 7) 5) [
      | none ↦ []
      | some s' ↦ visit 9 d (std_dll_remove s' 4) (std_dll_getfirst d (std_dll_remove s' 4))
    ]
    ≡ 5 ∷ 7 ∷ []
unfolding std_dll_init_sort std_dll_insert std_dll_remove visit std_dll_getnext
filled = refl

insertatback-IsList_example :
    IsList sorted_head (std_dll_insertatback sorted_head links 5) (4 ∷ 7 ∷ 5 ∷ [])
insertatback-IsList_example =
    insertatback-IsList sorted_head links (4 ∷ 7 ∷ []) 5 links-IsList five-IsNew

insertafter-IsList_example : IsList sorted_head (std_dll_insertafter links 4 5) (4 ∷ 5 ∷ 7 ∷ [])
insertafter-IsList_example =
    insertafter-IsList sorted_head links [] (7 ∷ []) 4 5 links-IsList five-IsNew

remove-IsList_example :
    IsList sorted_head (std_dll_remove links 7) (4 ∷ [])
    × ((std_dll_remove links 7).next 7 ≡ 0)
    × ((std_dll_remove links 7).back 7 ≡ 0)
remove-IsList_example = remove-IsList sorted_head links (4 ∷ []) [] 7 links-IsList

visit_all_example : visit 3 sorted_head links (std_dll_getfirst sorted_head links) ≡ 4 ∷ 7 ∷ []
visit_all_example = visit_all sorted_head links 3 (4 ∷ 7 ∷ []) (omega arith) links-IsList

std_dll_insert-place_example :
    Inserted by_address sorted_head
      (std_dll_insert 3 sorted_head links 5)
      (place by_address 5 (4 ∷ 7 ∷ []))
std_dll_insert-place_example =
    std_dll_insert-place by_address sorted_head links 5 3 (4 ∷ 7 ∷ []) refl (omega arith)
      links-IsList five-IsNew

by_address_asym : (a b : ℕ) → less by_address a b ≡ true → less by_address b a ≡ false
by_address_asym a b h = ground arith

by_address_trans :
    (a b c : ℕ)
    → less by_address a b ≡ true
    → less by_address b c ≡ true
    → less by_address a c ≡ true
by_address_trans a b c h k = ground arith

std_dll_insert-InOrder_example :
    (ys : List ℕ) × Inserted by_address sorted_head (std_dll_insert 3 sorted_head links 5) ys
    × InOrder by_address ys
    × Perm (5 ∷ 4 ∷ 7 ∷ []) ys
std_dll_insert-InOrder_example =
    std_dll_insert-InOrder by_address sorted_head by_address_asym by_address_trans links 5 3
      (4 ∷ 7 ∷ []) refl (omega arith) links-IsList five-IsNew ((refl, tt), (tt, tt))
