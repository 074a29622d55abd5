-- ===== src/Radical.antt =====
-- src/std_radical.c and sonic/std_radical.h: the change list of a radix tree.
-- Entries and the markers (`dummy`) of walks stand in one list of src/std_llist.c. An entry is named
-- by the address of its `rdcl_cl`, so that `RDCL_HEADFROMDLL` is the identity and keeps null. The
-- asserts are left out. Versions are 64-bit.
pub mod Rounds
pub mod Walk
pub mod Skip
pub mod Versions
pub mod Wrap
mod Tests
use sonic_common_utils.Base.Int.{ℤ, pos, is_neg, is_zero}
use sonic_common_utils.Base.{
  ℕ, zero, suc, ◌+◌, ◌-◌, ◌%◌, ◌^◌, Bool, true, false, ◌&&◌, not, Option, none, some, if◌then◌else◌,
  ◌==◌, ltb, put,
}
use sonic_common_utils.Dll.{
  Head, Links, std_dll_getfirst, std_dll_getnext, std_dll_islinked, std_dll_insertatfront,
  std_dll_insertatback, std_dll_insertafter, std_dll_insertbefore, std_dll_remove,
}

-- The fields of `std_rt_table` that the change list uses, and those of its entries: the links, the
-- versions, and the flags `RDCL_DUMMY` and `RDCL_INCL`.
pub record Changes : Type 0 where
  pub clhead : Head
  pub links : Links
  pub rth_version : ℕ → ℕ
  pub is_dummy : ℕ → Bool
  pub is_included : ℕ → Bool
  pub rtt_version : ℕ
  pub radicalinuse : ℤ
  pub nwraps : ℕ

abbrev pub set_version : Changes → ℕ → ℕ → Changes
set_version s rth v = record s { rth_version = put s.rth_version rth v }

abbrev pub set_dummy : Changes → ℕ → Bool → Changes
set_dummy s rth b = record s { is_dummy = put s.is_dummy rth b }

-- `n + 1` and `n - 1` of the `int` counter.
pub increment : ℤ → ℤ
increment (ℤ.pos n) = ℤ.pos (n + 1)
increment (ℤ.negsuc zero) = ℤ.pos 0
increment (ℤ.negsuc (suc n)) = ℤ.negsuc n

pub decrement : ℤ → ℤ
decrement (ℤ.pos zero) = ℤ.negsuc 0
decrement (ℤ.pos (suc n)) = ℤ.pos n
decrement (ℤ.negsuc n) = ℤ.negsuc (n + 1)

-- `if (std_dll_islinked(...)) std_dll_remove(...)`, with a further condition in front.
abbrev pub unlink_if : Bool → Changes → ℕ → Changes
unlink_if b s rth =
    if b && std_dll_islinked s.links rth then record s { links = std_dll_remove s.links rth } else s

-- The loop of `std_radical_procverwrap` at the entry `rth`, on fuel, with the last version given.
pub wrap_loop : ℕ → Changes → (rth version : ℕ) → Option (Changes × ℕ)
unfolding put
wrap_loop zero s rth version = none
wrap_loop (suc fuel) s rth version = elim (rth == 0) [
  | true ↦ some (s, version)
  | false ↦ elim (s.is_dummy rth) [
    | true ↦
        wrap_loop fuel (set_version s rth version) (std_dll_getnext s.clhead s.links rth) version
    | false ↦
        let next = (version + 1) % 2 ^ 64 in
        wrap_loop fuel (set_version s rth next) (std_dll_getnext s.clhead s.links rth) next
  ]
]

pub std_radical_procverwrap : ℕ → Changes → Option (Changes × ℕ)
unfolding wrap_loop
std_radical_procverwrap fuel s = wrap_loop fuel s (std_dll_getfirst s.clhead s.links) 0

pub std_radical_walkconstructor : Changes → ℕ → Changes
unfolding put
std_radical_walkconstructor s dummy =
    let s1 = set_dummy (unlink_if (s.is_dummy dummy) s dummy) dummy true in
    let s2 = record s1 { links = std_dll_insertatfront s1.clhead s1.links dummy } in
    record (set_version s2 dummy 0) { radicalinuse = increment s2.radicalinuse }

pub std_radical_walkconstructorafter : Changes → (after dummy : ℕ) → Changes
unfolding put
std_radical_walkconstructorafter s after dummy =
    let s1 = set_dummy (unlink_if true s dummy) dummy true in
    let s2 = record s1 { links = std_dll_insertafter s1.links after dummy } in
    record (set_version s2 dummy (s2.rth_version after)) {
      radicalinuse = increment s2.radicalinuse;
    }

pub std_radical_walkdestructor : Changes → ℕ → Changes
unfolding put
std_radical_walkdestructor s dummy =
    let s1 = unlink_if true (set_dummy s dummy false) dummy in
    record s1 { radicalinuse = decrement s1.radicalinuse }

-- The state after the call; it returns the new version of the entry.
pub std_radical_appendtochangelist : Changes → ℕ → Changes
unfolding put
std_radical_appendtochangelist s rth =
    let links = if s.is_included rth then std_dll_remove s.links rth else s.links in
    let version = (s.rtt_version + 1) % 2 ^ 64 in
    record s {
      links = std_dll_insertatback s.clhead links rth;
      is_included = put s.is_included rth true;
      rtt_version = version;
      rth_version = put s.rth_version rth version;
      nwraps = if version == 0 then s.nwraps + 1 else s.nwraps;
    }

-- The loops that pass over markers, from `rth` on.
pub skip_dummies : ℕ → Changes → ℕ → Option ℕ
skip_dummies zero s rth = none
skip_dummies (suc fuel) s rth = elim (not (rth == 0) && s.is_dummy rth) [
  | true ↦ skip_dummies fuel s (std_dll_getnext s.clhead s.links rth)
  | false ↦ some rth
]

pub std_radical_getfirst : ℕ → Changes → Option ℕ
unfolding skip_dummies
std_radical_getfirst fuel s = skip_dummies fuel s (std_dll_getfirst s.clhead s.links)

pub std_radical_getnext : ℕ → Changes → ℕ → Option ℕ
unfolding skip_dummies
std_radical_getnext fuel s rth = skip_dummies fuel s (std_dll_getnext s.clhead s.links rth)

-- The loop of `std_radical_nextversion` at `rth`, which is not null.
pub version_loop : ℕ → Changes → ℕ → Option ℕ
version_loop zero s rth = none
version_loop (suc fuel) s rth = elim (s.is_dummy rth) [
  | false ↦ some (s.rth_version rth)
  | true ↦
      let next = std_dll_getnext s.clhead s.links rth in
      elim (next == 0) [ true ↦ some 0 | false ↦ version_loop fuel s next ]
]

pub std_radical_nextversion : ℕ → Changes → ℕ → Option ℕ
unfolding version_loop
std_radical_nextversion fuel s dummy = version_loop fuel s dummy

-- The caller's callback, with what it keeps for itself: it is given the table and an entry, and
-- returns the value that goes to `*cbretval`.
abbrev pub Callback {ℓ} : Type ℓ → Type ℓ
Callback U = U → Changes → ℕ → U × Changes × ℤ

module _ {ℓ} {U : Type ℓ} (walk_fn : Callback U) (dummy max_ver : ℕ) where
  -- The loop of `std_radical_walkchangelist` at `rth`, while the marker is out of the list; what
  -- follows the loop stands in the cases that leave it. `maxnodes` is taken in 32 bits. `cnt` is not
  -- read but to be counted down, and is left out.
  pub walk_loop : ℕ → U → Changes → (rth maxnodes : ℕ) → ℤ → Option (U × Changes × ℤ)
  unfolding put
  walk_loop zero u s rth maxnodes cbretval = none
  walk_loop (suc fuel) u s rth maxnodes cbretval = elim (rth == 0) [
    | true ↦
        let s1 = set_version s dummy s.rtt_version in
        some (u, record s1 { links = std_dll_insertatback s1.clhead s1.links dummy }, cbretval)
    | false ↦ elim (s.is_dummy rth) [
      | true ↦ walk_loop fuel u s (std_dll_getnext s.clhead s.links rth) maxnodes cbretval
      | false ↦ elim (ltb max_ver (s.rth_version rth)) [
        | true ↦
            let s1 = set_version s dummy max_ver in
            some (u, record s1 { links = std_dll_insertbefore s1.links rth dummy }, cbretval)
        | false ↦
            let version = s.rth_version rth in
            let (u', s2, ret) =
              walk_fn u (record s { links = std_dll_insertafter s.links rth dummy }) rth in
            let s3 = if is_neg ret then s2 else set_version s2 dummy version in
            elim (is_neg ret) [
              | true ↦
                  let removed = std_dll_remove s3.links dummy in
                  some (u', record s3 { links = std_dll_insertbefore removed rth dummy }, ret)
              | false ↦ elim (is_zero ret) [
                | false ↦ some (u', s3, ret)
                | true ↦ elim ((maxnodes + 2 ^ 32 - 1) % 2 ^ 32 == 0) [
                  | true ↦ some (u', s3, ret)
                  | false ↦
                      walk_loop fuel u' (record s3 { links = std_dll_remove s3.links dummy })
                        (std_dll_getnext s3.clhead s3.links dummy)
                        ((maxnodes + 2 ^ 32 - 1) % 2 ^ 32) ret
                ]
              ]
            ]
      ]
    ]
  ]

  pub std_radical_walkchangelist : ℕ → U → Changes → (maxnodes : ℕ) → Option (U × Changes × ℤ)
  unfolding walk_loop
  std_radical_walkchangelist fuel u s maxnodes =
      walk_loop fuel u (record s { links = std_dll_remove s.links dummy })
        (std_dll_getnext s.clhead s.links dummy) (if maxnodes == 0 then 0xffffffff else maxnodes)
        (ℤ.pos 0)
