-- ===== src/Rbtree/Insertion/Ending.antt =====
-- `std_rbtree_balanceoninsert` of src/std_rbtree.c ends, and keeps the nodes in order.
use sonic_common_utils.Base.{
  ℕ, zero, suc, ◌<◌, ◌≡◌, ◌≢◌, refl, sym, ap, ◌∙◌, subst, inl, inr, Bool, true, false, ◌&&◌, not,
  Option, some, [], ◌∷◌, ◌++◌, length, arith, ◌==◌, ==_refl, Bool-cases, put_self, put_ne, put, ◌+◌,
  ◌≤◌, ne→==,
}
use sonic_common_utils.Rbtree.{Table, set_red}
use sonic_common_utils.Rbtree.Insertion.{balance_round, balance_loop}
use sonic_common_utils.Rbtree.Insertion.Round.{graft, Place-up_near, Place-up_far}
use sonic_common_utils.Rbtree.Insertion.Loop.{
  RootBlack, RootBlack-behind, RootBlack-kept, round-Outcome,
}
use sonic_common_utils.Rbtree.Shape.{Tree, leaf, branch, inorder}
use sonic_common_utils.Rbtree.Zipper.{
  Frame, Trail, at_near, at_far, plug, node_of, occurs, occurs_along, hits, hits_self, Above,
}
use sonic_common_utils.Rbtree.Place.{Place}
use sonic_common_utils.Rbtree.Apart.{ne_of_zero}
use sonic_common_utils.Rbtree.Colours.{Balanced-kept, Ruled, head_red, plug-Balanced}
use sonic_common_utils.Rbtree.Insertion.Rules.{Climbing, Settling}
use sonic_common_utils.Rbtree.Rotation.{left_of, right_of}
use sonic_common_utils.Rbtree.Sides.{left_side, set_red-Place}

abbrev pub At : Table → ℕ → Tree → Trail → Type 0
At s p t path = Place left_of right_of s p t path

-- From a place to the whole tree.
pub At-root :
    (s : Table) (p : ℕ) (t : Tree) (path : Trail) → At s p t path → At s s.root (plug t path) []
At-root s p t [] h = record { stands = rw h.above h.stands; above = refl; once = h.once }
At-root s p t (at_near a o ∷ path) h =
    At-root s a (branch t a o) path (Place-up_near left_of right_of s a p t o path h)
At-root s p t (at_far a o ∷ path) h =
    At-root s a (branch o a t) path (Place-up_far left_of right_of s a p t o path h)

pub plug-inorder :
    (t t' : Tree) (path : Trail)
    → inorder t ≡ inorder t'
    → inorder (plug t path) ≡ inorder (plug t' path)
unfolding inorder
plug-inorder t t' [] e = e
plug-inorder t t' (at_near a o ∷ path) e =
    plug-inorder (branch t a o) (branch t' a o) path (ap (λ xs. xs ++ (a ∷ inorder o)) e)
plug-inorder t t' (at_far a o ∷ path) e =
    plug-inorder (branch o a t) (branch o a t') path (ap (λ xs. inorder o ++ (a ∷ xs)) e)

-- The loop has come to an end: the whole tree has the nodes of `t` in order, and the data are kept.
-- The rules of the colours are kept where `J` holds.
pub record Ended (J : ℕ → Type 0) (s : Table) (t : Tree) (o : Option Table) : Type 0 where
  pub table : Table
  pub tree : Tree
  pub ends : o ≡ some table
  pub whole : At table table.root tree []
  pub order : inorder tree ≡ inorder t
  pub item : table.item ≡ s.item
  pub nil : table.nil ≡ s.nil
  pub root_black : table.red table.root ≡ false
  pub rules : (n : ℕ) → J n → Ruled table.red tree

-- A root that turns black breaks no rule.
blacken-Ruled :
    (s : Table) (t : Tree) → At s s.root t [] → Ruled s.red t → Ruled (put s.red s.root false) t
unfolding occurs
blacken-Ruled s leaf h k = (0, refl)
blacken-Ruled s (branch l a r) h k =
    let one = rw (hits_self a) at (h.once a) in
    let apart : (f : ℕ → ℕ) → f a ≡ 0 → (q : ℕ) → 1 ≤ f q → put s.red s.root false q ≡ s.red q =
      λ f z q i. put_ne s.red s.root false q (λ e. ne_of_zero f q a i z (sym e ∙ h.stands.0)) in
    let top : put s.red s.root false a ≡ false =
      ap (put s.red s.root false) (sym h.stands.0) ∙ put_self s.red s.root false in
    (
      k.1.0 + 1,
      (
        k.1.0,
        rw top refl,
        (λ e. absurd (cc)),
        Balanced-kept s.red (put s.red s.root false) k.1.0 l
            (apart (λ q. occurs q l) (omega (arith, one))) k.1.3,
        Balanced-kept s.red (put s.red s.root false) k.1.0 r
            (apart (λ q. occurs q r) (omega (arith, one))) k.1.4,
      ),
    )

goes_on : Table → ℕ → Bool
goes_on s x = not (x == s.root) && s.red (s.parent x)

module _ (fuel : ℕ) (s : Table) (x : ℕ) where
  loop_stop : goes_on s x ≡ false → balance_loop (suc fuel) s x ≡ some (set_red s s.root false)
  unfolding balance_loop goes_on
  loop_stop e = rw (e, balance_loop)

  loop_round :
      goes_on s x ≡ true
      → balance_loop (suc fuel) s x ≡ balance_loop fuel (balance_round s x).0 (balance_round s x).1
  unfolding balance_loop goes_on
  loop_round e = rw (e, balance_loop)

-- Where the loop stops,
stop-Ended :
    (J : ℕ → Type 0) (fuel : ℕ) (s s0 : Table) (x p : ℕ) (t t' : Tree) (path : Trail)
    → goes_on s x ≡ false
    → At s p t path
    → inorder (plug t path) ≡ inorder t'
    → s.item ≡ s0.item
    → s.nil ≡ s0.nil
    → ((n : ℕ) → J n → Ruled s.red (plug t path))
    → Ended J s0 t' (balance_loop (suc fuel) s x)
stop-Ended J fuel s s0 x p t t' path e h o i j k = record {
  table = set_red s s.root false;
  tree = plug t path;
  ends = loop_stop fuel s x e;
  whole = set_red-Place left_side s s.root false s.root (plug t path) [] (At-root s p t path h);
  order = o;
  item = i;
  nil = j;
  root_black = put_self s.red s.root false;
  rules = λ n w. blacken-Ruled s (plug t path) (At-root s p t path h) (k n w);
}

goes_on_red : (s : Table) (x : ℕ) → goes_on s x ≡ true → s.red (s.parent x) ≡ true
unfolding goes_on
goes_on_red s x e = ground arith

goes_on_root : (s : Table) (x : ℕ) → goes_on s x ≡ true → x ≢ s.root
unfolding goes_on
goes_on_root s x e f = let own : (x == s.root) ≡ true = rw f (==_refl s.root) in ground arith

stops_under_black : (s : Table) (x : ℕ) → s.red (s.parent x) ≡ false → goes_on s x ≡ false
unfolding goes_on
stops_under_black s x e = ground arith

plug-graft : (f : Frame) (t : Tree) (path : Trail) → plug t (f ∷ path) ≡ plug (graft f t) path
plug-graft (at_near a o) t path = refl
plug-graft (at_far a o) t path = refl

graft-branch :
    (f : Frame) (t : Tree) → (l : Tree) × (r : Tree) × (graft f t ≡ branch l (node_of f) r)
graft-branch (at_near a o) t = (t, o, refl)
graft-branch (at_far a o) t = (o, t, refl)

Ended-by :
    (J J' : ℕ → Type 0)
    → ((n : ℕ) → J n → (m : ℕ) × J' m)
    → (s s' : Table) (t t' : Tree) (o o' : Option Table) → o ≡ o'
    → t ≡ t'
    → s'.item ≡ s.item
    → s'.nil ≡ s.nil
    → Ended J' s' t' o'
    → Ended J s t o
Ended-by J J' k s s' t t' o o' e f i j h = record {
  table = h.table;
  tree = h.tree;
  ends = e ∙ h.ends;
  whole = h.whole;
  order = h.order ∙ sym (ap inorder f);
  item = h.item ∙ i;
  nil = h.nil ∙ j;
  root_black = h.root_black;
  rules = λ n w. let (m, v) = k n w in h.rules m v;
}

-- A node whose parent is the root.
stops_at_top :
    (s : Table) (x : ℕ) (L R : Tree) (f : Frame)
    → At s x (branch L x R) (f ∷ [])
    → s.red (node_of f) ≡ false
    → goes_on s x ≡ false
stops_at_top s x L R (at_near a o) h e = stops_under_black s x (rw h.stands.2 e)
stops_at_top s x L R (at_far a o) h e = stops_under_black s x (rw h.stands.2 e)

stops_at_root : (s : Table) (x : ℕ) (t : Tree) → At s x t [] → goes_on s x ≡ false
stops_at_root s x t h = elim (Bool-cases (goes_on s x)) [
  | inl e ↦ absurd (goes_on_root s x e (sym h.above))
  | inr e ↦ e
]

head_node : (red : ℕ → Bool) (f : Frame) (path : Trail) → head_red red (f ∷ path) ≡ red (node_of f)
head_node red (at_near a o) path = refl
head_node red (at_far a o) path = refl

above_parent :
    (s : Table) (x : ℕ) (L R : Tree) (f : Frame) (path : Trail)
    → At s x (branch L x R) (f ∷ path)
    → s.parent x ≡ node_of f
above_parent s x L R (at_near a o) path h = h.stands.2
above_parent s x L R (at_far a o) path h = h.stands.2

root_along :
    (s : Table) (x : ℕ) (f : Frame) (path : Trail)
    → Above left_of right_of s x (f ∷ path)
    → 1 ≤ occurs_along s.root (f ∷ path)
unfolding occurs_along
root_along s x (at_near a o) [] h =
    let one : hits s.root a ≡ 1 = rw h.4 (hits_self a) in omega (arith, one)
root_along s x (at_far a o) [] h =
    let one : hits s.root a ≡ 1 = rw h.4 (hits_self a) in omega (arith, one)
root_along s x (at_near a o) (f ∷ path) h = let w = root_along s a f path h.4 in omega (arith, w)
root_along s x (at_far a o) (f ∷ path) h = let w = root_along s a f path h.4 in omega (arith, w)

-- Where the loop stops below the root, the parent is black.
stopped_black :
    (s : Table) (x : ℕ) (L R : Tree) (f : Frame) (path : Trail)
    → At s x (branch L x R) (f ∷ path)
    → goes_on s x ≡ false
    → head_red s.red (f ∷ path) ≡ false
unfolding goes_on occurs
stopped_black s x L R f path h e =
    let i = root_along s x f path h.above in
    let one = rw (hits_self x) at (h.once x) in
    let ne =
      ne→== x s.root (λ n.
        ne_of_zero (λ q. occurs_along q (f ∷ path)) s.root x i (omega (arith, one)) (sym n)) in
    let black : s.red (s.parent x) ≡ false = rw ne at e in
    head_node s.red f path ∙ ap s.red (sym (above_parent s x L R f path h)) ∙ black

-- The rules in the whole tree, for a place under a black parent.
Climbing-plug :
    (red : ℕ → Bool) (n : ℕ) (t : Tree) (path : Trail)
    → head_red red path ≡ false
    → Climbing red n t path
    → Ruled red (plug t path)
Climbing-plug red n t path e k = plug-Balanced red n t path k.0 (λ w. e) k.2

Settling-plug :
    (red : ℕ → Bool) (n : ℕ) (t : Tree) (path : Trail)
    → Settling red n t path
    → Ruled red (plug t path)
Settling-plug red n t path k = plug-Balanced red n t path k.0 (λ w. absurd (cc)) k.2

-- From a place where the path up is shorter than the fuel, the loop ends.
pub loop-Ended :
    (fuel : ℕ) (s : Table) (x : ℕ) (L R : Tree) (path : Trail)
    → At s x (branch L x R) path
    → RootBlack s.red path
    → length path < fuel
    → Ended
        (λ n. Climbing s.red n (branch L x R) path)
        s
        (plug (branch L x R) path)
        (balance_loop fuel s x)
loop-Ended zero s x L R path h black n = absurd (omega arith)
loop-Ended (suc fuel) s x L R [] h black n =
    stop-Ended _ fuel s s x x (branch L x R) (branch L x R) [] (stops_at_root s x (branch L x R) h)
      h refl refl refl (λ n k. Climbing-plug s.red n (branch L x R) [] refl k)
loop-Ended (suc fuel) s x L R (f ∷ []) h black n =
    stop-Ended _ fuel s s x x (branch L x R) (plug (branch L x R) (f ∷ [])) (f ∷ [])
      (stops_at_top s x L R f h black) h refl refl refl
      (λ n k. Climbing-plug s.red n (branch L x R) (f ∷ []) (head_node s.red f [] ∙ black) k)
loop-Ended (suc zero) s x L R (f ∷ f' ∷ path) h black n = absurd (omega arith)
loop-Ended (suc (suc fuel)) s x L R (f ∷ f' ∷ path) h black n =
    let t = branch L x R in
    let r = balance_round s x in
    let G = graft f' (graft f t) in
    let J : ℕ → Type 0 = λ n. Climbing s.red n t (f ∷ f' ∷ path) in
    let plugged : plug t (f ∷ f' ∷ path) ≡ plug G path =
      plug-graft f t (f' ∷ path) ∙ plug-graft f' (graft f t) path in
    elim (Bool-cases (goes_on s x)) [
      | inr e ↦
          stop-Ended J (suc fuel) s s x x t (plug t (f ∷ f' ∷ path)) (f ∷ f' ∷ path) e h refl refl
            refl
            (λ n k.
              Climbing-plug s.red n t (f ∷ f' ∷ path) (stopped_black s x L R f (f' ∷ path) h e) k)
      | inl e ↦
          let red_p : s.red (node_of f) ≡ true =
            ap s.red (sym (above_parent s x L R f (f' ∷ path) h)) ∙ goes_on_red s x e in
          elim (round-Outcome s x L R f f' path h) [
            | inl w ↦
                Ended-by J J (λ n k. (n, k)) s s (plug t (f ∷ f' ∷ path)) (plug G path)
                  (balance_loop (suc (suc fuel)) s x) (balance_loop (suc fuel) r.0 r.1)
                  (loop_round (suc fuel) s x e) plugged refl refl
                  (stop-Ended J fuel r.0 s r.1 w.node w.tree (plug G path) path
                    (stops_under_black r.0 r.1 w.parent_black) w.place
                    (plug-inorder w.tree G path (sym w.order.0)) w.item w.nil
                    (λ n k. Settling-plug r.0.red (suc n) w.tree path (w.rules n (k, red_p))))
            | inr w ↦
                let (l, o, b) = graft-branch f' (graft f t) in
                let black' =
                  RootBlack-kept s.red r.0.red path w.colours
                    (RootBlack-behind s.red f' path (RootBlack-behind s.red f (f' ∷ path) black)) in
                Ended-by J (λ n. Climbing r.0.red n (branch l (node_of f') o) path)
                  (λ n k.
                    (suc n, subst (λ z. Climbing r.0.red (suc n) z path) b (w.rules n (k, red_p))))
                  s r.0 (plug t (f ∷ f' ∷ path)) (plug (branch l (node_of f') o) path)
                  (balance_loop (suc (suc fuel)) s x) (balance_loop (suc fuel) r.0 (node_of f'))
                  (loop_round (suc fuel) s x e ∙ ap (balance_loop (suc fuel) r.0) w.next)
                  (plugged ∙ ap (λ z. plug z path) b) w.item w.nil
                  (loop-Ended (suc fuel) r.0 (node_of f') l o path
                    (subst (λ z. At r.0 (node_of f') z path) b w.place) black' (omega arith))
          ]
    ]
