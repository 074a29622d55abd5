-- ===== src/Radix/Tests.antt =====
-- The radix tree of src/std_radix.c on concrete entries.
use mathlib.Core.Option
use sonic_common_utils.Base.{
  put, ◌%◌, ◌<◌, arith, ℕ, ◌+◌, ◌≡◌, refl, false, Option, none, some, List, [], ◌∷◌, ◌++◌, ◌==◌,
  if◌then◌else◌,
}
use sonic_common_utils.Radix.{RtTable, rnbit, std_radix_create}
use sonic_common_utils.Radix.Lookup.{
  searched, is_live, std_radix_getbest, std_radix_getbestandprev, std_radix_getnextbest,
  std_radix_getexact,
}
use sonic_common_utils.Radix.Following.{std_radix_getnext}
use sonic_common_utils.Radix.Insertion.{std_radix_insert}
use sonic_common_utils.Radix.Removal.{std_radix_remove}
use sonic_common_utils.Radix.Shape.{IsTrie}
use sonic_common_utils.Radix.Best.{Longest, std_radix_getbest-Longest}
use sonic_common_utils.Radix.Exact.{Exact, compared, std_radix_getexact-Exact}
use sonic_common_utils.Radix.Chain.{Matches}
use sonic_common_utils.Radix.Second.{Ranked, std_radix_getbestandprev-Ranked}
use sonic_common_utils.Rbtree.Shape.{Tree, leaf, branch, depth, count}
use sonic_common_utils.Radix.Walking.Rounds.{noting, fold_entries, entries}
use sonic_common_utils.Radix.Walking.Visiting.{std_radix_walk-fold_entries}
use sonic_common_utils.Radix.Walking.{RadixFn, std_radix_walk}

abbrev blank : RtTable
blank = record {
  rtn_left = λ p. 0;
  rtn_right = λ p. 0;
  rtn_parent = λ p. 0;
  rtn_bit = λ p. 0;
  rtn_tbit = λ p. 0;
  rtn_dele = λ p. false;
  rtn_lock = λ p. 0;
  rtn_version = λ p. 0;
  rtn_rth = λ p. 0;
  rth_rtn = λ p. 0;
  rth_addr = λ p. p;
  rth_version = λ p. 0;
  rdx_rth_addr = λ p. 0;
  rth_magic = λ p. false;
  bytes = λ p i. if i == 0 then p else 0;
  rtt_root = 0;
  rtt_inodes = 0;
  rtt_routes = 0;
  rtt_ninserts = 0;
  rtt_nremoves = 0;
  rtt_nmalloc = 0;
  rtt_nfree = 0;
  rtt_nusrfrees = 0;
  rtt_nwraps = 0;
  rtt_version = 0;
  rtt_maxaddrlen = 0;
  rtt_debug = false;
  rtt_convert = none;
  rtt_rmfree = false;
}

-- The entry at `h` has the key with the byte `h`.
abbrev add : (h bitlen : ℕ) → RtTable → Option RtTable
add h bitlen s = Option.map (λ r. r.0) (std_radix_insert 20 s h bitlen 0 (h + 1000) (h + 2000))

-- 10/8 (0x0a), 0x80/1, 0xc0/2, 0xc8/6, 0xcf/8
abbrev filled : Option RtTable
filled = Option.bind (add 0x80 1 (std_radix_create 8 false blank)) λ s.
    Option.bind (add 0xcf 8 s)
      λ s. Option.bind (add 0x0a 8 s) λ s. Option.bind (add 0xc0 2 s) λ s. add 0xc8 6 s

abbrev one_byte : ℕ → ℕ → ℕ
one_byte b i = if i == 0 then b else 0

counted : Option.map {B = ℕ × ℕ} (λ s. (s.rtt_inodes, s.rtt_routes)) filled ≡ some (7, 5)
unfolding rnbit std_radix_create std_radix_insert Option.bind
counted = refl

best : Option.bind filled (λ s. std_radix_getbest 20 s (some (one_byte 0xcb)) 8) ≡ some 0xc8
unfolding rnbit std_radix_create std_radix_insert std_radix_getbest Option.bind
best = refl

exact : Option.bind filled (λ s. std_radix_getexact 20 s (one_byte 0xc0) 2) ≡ some 0xc0
unfolding rnbit std_radix_create std_radix_insert std_radix_getexact Option.bind
exact = refl

following : Option.bind filled (λ s. std_radix_getnext 20 s (some (one_byte 0xc0)) 2) ≡ some 0xc8
unfolding rnbit std_radix_create std_radix_insert std_radix_getnext Option.bind
following = refl

abbrev note : RadixFn (List ℕ)
note = some (λ s seen h. (s, seen ++ (h ∷ []), false))

walked :
    Option.map {B = List ℕ × ℕ}
      (λ r. (r.1, r.2))
      (Option.bind filled (λ s. std_radix_walk 60 note s [] 0 0))
    ≡ some (0x0a ∷ 0x80 ∷ 0xc0 ∷ 0xc8 ∷ 0xcf ∷ [], 0)
unfolding rnbit std_radix_create std_radix_insert std_radix_walk Option.bind
walked = refl

removed :
    Option.bind filled
      (λ s. std_radix_getbest 20 (std_radix_remove s 0xc8) (some (one_byte 0xcb)) 8)
    ≡ some 0xc0
unfolding rnbit std_radix_create std_radix_insert std_radix_getbest std_radix_remove Option.bind
removed = refl

-- A split at the node 1, with the keys 0x0a of eight bits at the node 2 and 0x80 of one bit at 3.
abbrev small : RtTable
small = record blank {
  rtt_root = 1;
  rtn_left = put (λ p. 0) 1 2;
  rtn_right = put (λ p. 0) 1 3;
  rtn_parent = put (put (λ p. 0) 2 1) 3 1;
  rtn_bit = put (put (λ p. 0) 2 8) 3 1;
  rtn_tbit = put (put (put (λ p. 0) 1 128) 2 128) 3 64;
  rtn_rth = put (put (λ p. 0) 2 0x0a) 3 0x80;
  rdx_rth_addr = λ p. p;
  bytes = λ p i. if i == 0 then p % 256 else 0;
}

abbrev small_tree : Tree
small_tree = branch (branch leaf 2 leaf) 1 (branch leaf 3 leaf)

small-IsTrie : IsTrie small small_tree
unfolding put rnbit
small-IsTrie = record {
  linked = (
    refl,
    omega arith,
    refl,
    (refl, omega arith, refl, refl, refl),
    (refl, omega arith, refl, refl, refl),
  );
  ordered = (
    refl,
    (tt, (omega arith, (λ n. refl)), tt),
    (tt, (omega arith, (λ n. refl)), tt),
    (refl, tt, tt, tt, tt),
    (refl, tt, tt, tt, tt),
  );
  is_bytes = λ p i. ground arith;
}

low : depth small_tree < 3
unfolding depth
low = omega arith

byte_0xc8 : (i : ℕ) → searched small (one_byte 0xc8) i < 256
unfolding searched
byte_0xc8 i = ground arith

std_radix_getbest-Longest_example :
    (x : ℕ) × (std_radix_getbest 3 small (some (one_byte 0xc8)) 8
      ≡ some (if is_live small x then small.rtn_rth x else 0))
    × Longest small (searched small (one_byte 0xc8)) 8 small_tree x
std_radix_getbest-Longest_example =
    std_radix_getbest-Longest small small_tree small-IsTrie (one_byte 0xc8) 8 3 low byte_0xc8 refl

found : std_radix_getbest 3 small (some (one_byte 0xc8)) 8 ≡ some 0x80
unfolding std_radix_getbest put rnbit
found = refl

std_radix_getbestandprev-Ranked_example :
    (nodes : List ℕ) × Matches small (searched small (one_byte 0xc8)) 8 small_tree nodes
    × Ranked small 3 (one_byte 0xc8) 8 nodes
std_radix_getbestandprev-Ranked_example =
    std_radix_getbestandprev-Ranked small small_tree small-IsTrie (one_byte 0xc8) 8 3 low refl
      byte_0xc8

both_best :
    Option.bind filled (λ s. std_radix_getbestandprev 20 s (some (one_byte 0xcb)) 8)
    ≡ some (0xc8, some 0xc0)
unfolding rnbit std_radix_create std_radix_insert std_radix_getbestandprev Option.bind
both_best = refl

next_best :
    Option.bind filled (λ s. std_radix_getnextbest 20 s (some (one_byte 0xcb)) 8) ≡ some 0xc0
unfolding rnbit std_radix_create std_radix_insert std_radix_getnextbest Option.bind
next_best = refl

byte_0x0a : (i : ℕ) → compared small (one_byte 0x0a) i < 256
byte_0x0a i = ground arith

std_radix_getexact-Exact_example :
    (rth : ℕ) × (std_radix_getexact 3 small (one_byte 0x0a) 8 ≡ some rth)
    × Exact small (one_byte 0x0a) 8 small_tree rth
std_radix_getexact-Exact_example =
    std_radix_getexact-Exact small small_tree small-IsTrie (one_byte 0x0a) 8 3 low byte_0x0a refl

abbrev listed : List ℕ → ℕ → List ℕ
listed seen h = seen ++ (h ∷ [])

std_radix_walk-fold_entries_example :
    std_radix_walk 14 (noting listed small) small [] 0 0
    ≡ some (small, fold_entries listed small [] small_tree, 0)
unfolding entries put count
std_radix_walk-fold_entries_example =
    std_radix_walk-fold_entries listed small [] 14 small_tree small-IsTrie.linked
      ((tt, (λ e. refl), tt), (λ e. absurd (omega arith)), (tt, (λ e. refl), tt)) (omega arith)
      (omega arith)

all_listed : fold_entries listed small [] small_tree ≡ 0x0a ∷ 0x80 ∷ []
unfolding fold_entries put
all_listed = refl
