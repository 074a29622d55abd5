-- ===== src/Dll/Splice.antt =====
-- The effect on the links of src/std_llist.c of putting a node between two neighbours, and of taking
-- one out.
use sonic_common_utils.Base.{ℕ, ◌≡◌, ◌≢◌, sym, ◌∙◌, List, [], ◌∷◌, ◌++◌, All, put, put_self, put_ne}
use sonic_common_utils.Dll.{Links}
use sonic_common_utils.Base.Distinct.{NotIn, Distinct, All-right}
use sonic_common_utils.Dll.Linked.{Linked, Linked-frame}

-- `new` between `y` and `z`.
abbrev pub splice : Links → (y new z : ℕ) → Links
splice s y new z = record {
  next = put (put s.next new z) y new;
  back = put (put s.back new y) z new;
}

module _ (s : Links) (y new z : ℕ) where
  next_kept : (x : ℕ) → x ≢ y → x ≢ new → (splice s y new z).next x ≡ s.next x
  next_kept x p q =
      put_ne (put s.next new z) y new x (λ e. p (sym e)) ∙ put_ne s.next new z x (λ e. q (sym e))

  back_kept : (x : ℕ) → x ≢ z → x ≢ new → (splice s y new z).back x ≡ s.back x
  back_kept x p q =
      put_ne (put s.back new y) z new x (λ e. p (sym e)) ∙ put_ne s.back new y x (λ e. q (sym e))

  All-next_kept :
      (nodes : List ℕ)
      → NotIn y nodes
      → NotIn new nodes
      → All (λ x. (splice s y new z).next x ≡ s.next x) nodes
  All-next_kept [] p q = tt
  All-next_kept (x ∷ nodes) p q = (next_kept x p.0 q.0, All-next_kept nodes p.1 q.1)

  All-back_kept :
      (nodes : List ℕ)
      → NotIn z nodes
      → NotIn new nodes
      → All (λ x. (splice s y new z).back x ≡ s.back x) nodes
  All-back_kept [] p q = tt
  All-back_kept (x ∷ nodes) p q = (back_kept x p.0 q.0, All-back_kept nodes p.1 q.1)

  -- The chain gets the new node between the two.
  pub Linked-splice :
      (before after : List ℕ)
      → Linked s (before ++ (y ∷ z ∷ after))
      → Distinct (before ++ (y ∷ z ∷ after))
      → NotIn new (before ++ (y ∷ z ∷ after))
      → Linked (splice s y new z) (before ++ (y ∷ new ∷ z ∷ after))
  Linked-splice [] after l d n = (
    put_self (put s.next new z) y new,
    put_ne (put s.back new y) z new new n.1.0 ∙ put_self s.back new y,
    (
      put_ne (put s.next new z) y new new n.0 ∙ put_self s.next new z,
      put_self (put s.back new y) z new,
      Linked-frame s (splice s y new z) z after (All-next_kept (z ∷ after) d.0 n.1)
          (All-back_kept after d.1.0 n.1.1) l.2,
    ),
  )
  Linked-splice (a ∷ []) after l d n = (
    next_kept a (λ e. d.0.0 (sym e)) n.0 ∙ l.0,
    back_kept y (λ e. d.1.0.0 (sym e)) n.1.0 ∙ l.1,
    Linked-splice [] after l.2 d.1 n.1,
  )
  Linked-splice (a ∷ b ∷ before) after l d n = (
    next_kept a (λ e. (All-right (λ x. x ≢ a) before (y ∷ z ∷ after) d.0.1).0 (sym e)) n.0 ∙ l.0,
    back_kept b (λ e. (All-right (λ x. x ≢ b) before (y ∷ z ∷ after) d.1.0).1.0 (sym e)) n.1.0
        ∙ l.1,
    Linked-splice (b ∷ before) after l.2 d.1 n.1,
  )

-- `item` taken out from between `y` and `z`, its own links cleared.
abbrev pub unsplice : Links → (y item z : ℕ) → Links
unsplice s y item z = record {
  next = put (put s.next y z) item 0;
  back = put (put s.back z y) item 0;
}

module _ (s : Links) (y item z : ℕ) where
  next_left : (x : ℕ) → x ≢ y → x ≢ item → (unsplice s y item z).next x ≡ s.next x
  next_left x p q =
      put_ne (put s.next y z) item 0 x (λ e. q (sym e)) ∙ put_ne s.next y z x (λ e. p (sym e))

  back_left : (x : ℕ) → x ≢ z → x ≢ item → (unsplice s y item z).back x ≡ s.back x
  back_left x p q =
      put_ne (put s.back z y) item 0 x (λ e. q (sym e)) ∙ put_ne s.back z y x (λ e. p (sym e))

  All-next_left :
      (nodes : List ℕ)
      → NotIn y nodes
      → NotIn item nodes
      → All (λ x. (unsplice s y item z).next x ≡ s.next x) nodes
  All-next_left [] p q = tt
  All-next_left (x ∷ nodes) p q = (next_left x p.0 q.0, All-next_left nodes p.1 q.1)

  All-back_left :
      (nodes : List ℕ)
      → NotIn z nodes
      → NotIn item nodes
      → All (λ x. (unsplice s y item z).back x ≡ s.back x) nodes
  All-back_left [] p q = tt
  All-back_left (x ∷ nodes) p q = (back_left x p.0 q.0, All-back_left nodes p.1 q.1)

  -- The chain loses the node and closes up.
  pub Linked-unsplice :
      (before after : List ℕ)
      → Linked s (before ++ (y ∷ item ∷ z ∷ after))
      → Distinct (before ++ (y ∷ item ∷ z ∷ after))
      → Linked (unsplice s y item z) (before ++ (y ∷ z ∷ after))
  Linked-unsplice [] after l d = (
    put_ne (put s.next y z) item 0 y d.0.0 ∙ put_self s.next y z,
    put_ne (put s.back z y) item 0 z (λ e. d.1.0.0 (sym e)) ∙ put_self s.back z y,
    Linked-frame s (unsplice s y item z) z after (All-next_left (z ∷ after) d.0.1 d.1.0)
        (All-back_left after d.1.1.0 d.1.0.1) l.2.2,
  )
  Linked-unsplice (a ∷ []) after l d = (
    next_left a (λ e. d.0.0 (sym e)) (λ e. d.0.1.0 (sym e)) ∙ l.0,
    back_left y (λ e. d.1.0.1.0 (sym e)) (λ e. d.1.0.0 (sym e)) ∙ l.1,
    Linked-unsplice [] after l.2 d.1,
  )
  Linked-unsplice (a ∷ b ∷ before) after l d =
      let pa = All-right (λ x. x ≢ a) before (y ∷ item ∷ z ∷ after) d.0.1 in
      let pb = All-right (λ x. x ≢ b) before (y ∷ item ∷ z ∷ after) d.1.0 in
      (
        next_left a (λ e. pa.0 (sym e)) (λ e. pa.1.0 (sym e)) ∙ l.0,
        back_left b (λ e. pb.1.1.0 (sym e)) (λ e. pb.1.0 (sym e)) ∙ l.1,
        Linked-unsplice (b ∷ before) after l.2 d.1,
      )
