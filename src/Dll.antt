-- ===== src/Dll.antt =====
-- src/std_llist.c and sonic/std_llist.h: a doubly linked list between two sentinel nodes, threaded
-- through the caller's own structures.
-- A node is an address, 0 is the null pointer, and the two links of all nodes are two functions of
-- the address. The sentinels `head.head` and `head.tail` are nodes at the two addresses of a `Head`.
-- A write through a pointer changes one link; the order of the writes is that of the source.
pub mod Linked
pub mod Splice
pub mod Edit
pub mod Sorted
pub mod Walk
mod Tests
use sonic_common_utils.Base.{
  ℕ, zero, suc, Bool, true, false, ◌||◌, not, ◌&&◌, Option, none, some, if◌then◌else◌, ◌==◌, ltb,
  put,
}
use sonic_common_utils.Base.Int.{ℤ, is_neg}

-- `dll_next` and `dll_back` of every `std_dll`.
pub record Links : Type 0 where
  pub next : ℕ → ℕ
  pub back : ℕ → ℕ

-- `std_dll_head`: the addresses of its two nodes, and the compare function, which is given the keys
-- at `offset`, of length `len`, of two nodes; it is a parameter of the model over the two nodes.
pub record Head : Type 0 where
  pub head : ℕ
  pub tail : ℕ
  pub compare : Option (ℕ → ℕ → ℤ)

abbrev pub set_next : Links → ℕ → ℕ → Links
set_next s p q = record s { next = put s.next p q }

abbrev pub set_back : Links → ℕ → ℕ → Links
set_back s p q = record s { back = put s.back p q }

-- `std_dll_init` for the head whose nodes stand at `h` and `t`.
pub std_dll_init : (h t : ℕ) → Links → Head × Links
unfolding put
std_dll_init h t s = (
  record { head = h; tail = t; compare = none },
  set_next (set_back (set_back (set_next s h t) h 0) t h) t 0,
)

pub std_dll_init_sort : (h t : ℕ) → (ℕ → ℕ → ℤ) → Links → Head × Links
unfolding std_dll_init
std_dll_init_sort h t cmp s =
    let (d, s') = std_dll_init h t s in (record d { compare = some cmp }, s')

pub std_dll_getfirst : Head → Links → ℕ
std_dll_getfirst d s = if s.next d.head == d.tail then 0 else s.next d.head

pub std_dll_getlast : Head → Links → ℕ
std_dll_getlast d s = if s.back d.tail == d.head then 0 else s.back d.tail

pub std_dll_getnext : Head → Links → ℕ → ℕ
std_dll_getnext d s after = if s.next after == d.tail then 0 else s.next after

pub std_dll_getprev : Head → Links → ℕ → ℕ
std_dll_getprev d s before = if s.back before == d.head then 0 else s.back before

-- `std_dll_islinked`.
pub std_dll_islinked : Links → ℕ → Bool
std_dll_islinked s item = not (s.next item == 0) && not (s.back item == 0)

pub std_dll_insertatfront : Head → Links → ℕ → Links
unfolding put
std_dll_insertatfront d s new =
    let s1 = set_next s new (s.next d.head) in
    let s2 = set_back s1 new d.head in
    let s3 = set_back s2 (s2.next d.head) new in set_next s3 d.head new

pub std_dll_insertatback : Head → Links → ℕ → Links
unfolding put
std_dll_insertatback d s new =
    let s1 = set_next s new d.tail in
    let s2 = set_back s1 new (s1.back d.tail) in
    let s3 = set_next s2 (s2.back d.tail) new in set_back s3 d.tail new

pub std_dll_insertafter : Links → ℕ → ℕ → Links
unfolding put
std_dll_insertafter s after new =
    let s1 = set_next s new (s.next after) in
    let s2 = set_back s1 new after in
    let s3 = set_back s2 (s2.next after) new in set_next s3 after new

pub std_dll_insertbefore : Links → ℕ → ℕ → Links
unfolding put
std_dll_insertbefore s before new =
    let s1 = set_next s new before in
    let s2 = set_back s1 new (s1.back before) in
    let s3 = set_next s2 (s2.back before) new in set_back s3 before new

pub std_dll_remove : Links → ℕ → Links
unfolding put
std_dll_remove s item =
    let front = s.back item in
    let back = s.next item in
    let s1 = set_next s front back in
    let s2 = set_back s1 back front in let s3 = set_back s2 item 0 in set_next s3 item 0

-- `while (true)` of `std_dll_insert`, on fuel; `none` is a walk that does not end within it.
pub insert_walk : ℕ → Head → (ℕ → ℕ → ℤ) → Links → (new walk : ℕ) → Option Links
unfolding std_dll_insertafter
insert_walk zero d cmp s new walk = none
insert_walk (suc fuel) d cmp s new walk =
    elim (s.next walk == d.tail || is_neg (cmp new (s.next walk))) [
      | true ↦ some (std_dll_insertafter s walk new)
      | false ↦ insert_walk fuel d cmp s new (s.next walk)
    ]

-- `std_dll_insert`, by the value of `head->compare`.
pub insert_by : Option (ℕ → ℕ → ℤ) → ℕ → Head → Links → ℕ → Option Links
unfolding insert_walk std_dll_insertatback std_dll_insertatfront std_dll_getfirst
insert_by none fuel d s new = some (std_dll_insertatback d s new)
insert_by (some cmp) fuel d s new =
    if std_dll_getfirst d s == 0 || is_neg (cmp new (s.next d.head))
    then some (std_dll_insertatfront d s new)
    else insert_walk fuel d cmp s new (s.next d.head)

pub std_dll_insert : ℕ → Head → Links → ℕ → Option Links
unfolding insert_by
std_dll_insert fuel d s new = insert_by d.compare fuel d s new

-- `std_compare_uint32_function`, on the two values that the pointers lead to.
pub std_compare_uint32 : ℕ → ℕ → ℤ
std_compare_uint32 current node =
    if current == node then ℤ.pos 0 else if ltb current node then ℤ.negsuc 0 else ℤ.pos 1
