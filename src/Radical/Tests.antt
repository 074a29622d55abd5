-- ===== src/Radical/Tests.antt =====
-- The change list of src/std_radical.c on a concrete table: the marker 4 and the entries 7 and 9.
use sonic_common_utils.Base.{ℕ, ◌≡◌, refl, inl, true, false, none, some, [], ◌∷◌, arith, put}
use sonic_common_utils.Base.Int.{ℤ}
use sonic_common_utils.Dll.Linked.{IsList}
use sonic_common_utils.Radical.{
  Changes, std_radical_procverwrap, std_radical_appendtochangelist, std_radical_getfirst,
  std_radical_getnext, std_radical_nextversion, std_radical_walkchangelist, increment, decrement,
}
use sonic_common_utils.Radical.Rounds.{note_entry, walked}
use sonic_common_utils.Radical.Skip.{first_entry, first_version, searches-first_entry}
use sonic_common_utils.Radical.Walk.{std_radical_walkchangelist-walked}
use sonic_common_utils.Radical.Versions.{Versioned, std_radical_appendtochangelist-Versioned}
use sonic_common_utils.Radical.Wrap.{Counted, std_radical_procverwrap-Counted}

abbrev table : Changes
table = record {
  clhead = record { head = 1; tail = 2; compare = none };
  links = record {
    next = put (put (put (put (λ _. 0) 1 4) 4 7) 7 9) 9 2;
    back = put (put (put (put (λ _. 0) 4 1) 7 4) 9 7) 2 9;
  };
  rth_version = put (put (λ _. 0) 7 3) 9 5;
  is_dummy = put (λ _. false) 4 true;
  is_included = put (put (λ _. false) 7 true) 9 true;
  rtt_version = 5;
  radicalinuse = ℤ.pos 1;
  nwraps = 0;
}

table-IsList : IsList table.clhead table.links (4 ∷ 7 ∷ 9 ∷ [])
unfolding put
table-IsList = record {
  linked = (refl, refl, (refl, refl, (refl, refl, (refl, refl, tt))));
  distinct = omega arith;
  not_null = omega arith;
}

table-Versioned : Versioned table (4 ∷ 7 ∷ 9 ∷ [])
unfolding put
table-Versioned = record {
  list = table-IsList;
  rising = (
    (λ e. omega arith),
    ((λ e f. omega arith), ((λ e f. omega arith), tt)),
    ((λ e. omega arith), ((λ e f. omega arith), tt), ((λ e. omega arith), tt, tt)),
  );
}

counter :
    (decrement (increment (ℤ.negsuc 0)) ≡ ℤ.negsuc 0) × (increment (decrement (ℤ.pos 4)) ≡ ℤ.pos 4)
unfolding increment decrement
counter = (refl, refl)

searches-first_entry_example :
    (std_radical_getfirst 4 table ≡ some (first_entry table.is_dummy (4 ∷ 7 ∷ 9 ∷ [])))
    × (std_radical_getnext 4 table 4 ≡ some (first_entry table.is_dummy (7 ∷ 9 ∷ [])))
    × (std_radical_nextversion 4 table 4
        ≡ some (first_version table.is_dummy table.rth_version (4 ∷ 7 ∷ 9 ∷ [])))
searches-first_entry_example =
    searches-first_entry table 4 [] (7 ∷ 9 ∷ []) 4 table-IsList (omega arith) (omega arith)

first_of_table :
    (first_entry table.is_dummy (4 ∷ 7 ∷ 9 ∷ []) ≡ 7)
    × (first_version table.is_dummy table.rth_version (4 ∷ 7 ∷ 9 ∷ []) ≡ 3)
unfolding first_entry first_version put
first_of_table = (refl, refl)

std_radical_procverwrap-Counted_example :
    (s' : Changes) × (v : ℕ) × (std_radical_procverwrap 4 table ≡ some (s', v))
    × Counted table.is_dummy table.rth_version s' 0 v [] (4 ∷ 7 ∷ 9 ∷ [])
std_radical_procverwrap-Counted_example =
    std_radical_procverwrap-Counted 4 table (4 ∷ 7 ∷ 9 ∷ []) table-IsList (omega arith)
      (omega arith)

std_radical_appendtochangelist-Versioned_example :
    let s' = std_radical_appendtochangelist table 7 in
    Versioned s' (4 ∷ 9 ∷ 7 ∷ [])
    × (s'.rth_version 7 ≡ 6)
    × (s'.rtt_version ≡ 6)
    × (s'.is_included 7 ≡ true)
unfolding put
std_radical_appendtochangelist-Versioned_example =
    std_radical_appendtochangelist-Versioned table 7 (4 ∷ []) (9 ∷ []) (inl (refl, table-Versioned))
      (omega arith)

-- The entry 9 is above 4, so that the walk stops in front of it.
std_radical_walkchangelist-walked_example :
    (s' : Changes) × (std_radical_walkchangelist note_entry 4 4 4 [] table 0
      ≡ some (7 ∷ [], s', ℤ.pos 0))
    × IsList table.clhead s'.links (7 ∷ 4 ∷ 9 ∷ [])
unfolding walked put
std_radical_walkchangelist-walked_example =
    std_radical_walkchangelist-walked table [] (7 ∷ 9 ∷ []) 4 4 4 0 table-IsList (omega arith)
      (omega arith) (omega arith)
