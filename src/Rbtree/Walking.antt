-- ===== src/Rbtree/Walking.antt =====
-- `std_rbtree_walk` of src/std_rbtree.c, the walk without recursion.
use mathlib.Core.Option
use sonic_common_utils.Base.{
  ℕ, zero, suc, ◌-◌, Bool, true, false, ◌||◌, Option, none, some, if◌then◌else◌, ◌==◌,
}
use sonic_common_utils.Base.Int.{ℤ}
use sonic_common_utils.Rbtree.{Table, node_getexactornext}

-- `RBT_WALKDOWN`, `RBT_WALKRIGHT` and `RBT_WALKUP`
pub data Direction : Type 0 where
  walk_down : Direction
  walk_right : Direction
  walk_up : Direction

-- Where the loop is: what the callback keeps, the number of visits left, the node and the direction.
pub record Walker {ℓ} (U : Type ℓ) : Type ℓ where
  pub state : U
  pub lcnt : ℕ
  pub x : ℕ
  pub dir : Direction

-- The callback returns whether its result is not zero; it may be missing.
abbrev pub WalkFn {ℓ} : Type ℓ → Type ℓ
WalkFn U = Option (U → ℕ → U × Bool)

-- `RBTUSERCALLBACK`, on the data given; `lcnt` is not 0.
pub call_back {ℓ} : {U : Type ℓ} → WalkFn U → Walker U → ℕ → Walker U
call_back none w item = record w { lcnt = w.lcnt - 1 }
call_back (some walk_fn) w item =
    let (u, stop) = walk_fn w.state item in
    record w { state = u; lcnt = if stop then 0 else w.lcnt - 1 }

module _ {ℓ} {U : Type ℓ} (walk_fn : WalkFn U) (preorder : Bool) (s : Table) where
  -- One round of the loop; the second part tells that it returns null.
  pub walk_round : Walker U → Direction → Walker U × Bool
  unfolding call_back
  walk_round w walk_down =
      if s.left w.x == s.nil
      then (record (call_back walk_fn w (s.item w.x)) { dir = walk_right }, false)
      else (
        record (if preorder then call_back walk_fn w (s.item w.x) else w) { x = s.left w.x },
        false,
      )
  walk_round w walk_right =
      let up = s.parent w.x in
      if s.right w.x == s.nil
      then (if up == s.nil
          then (record w { x = up }, true)
          else (if w.x == s.left up
              then (
                record (if preorder then w else call_back walk_fn w (s.item up)) {
                  x = up;
                  dir = walk_right;
                },
                false,
              )
              else (record w { x = up; dir = walk_up }, false)))
      else (record w { x = s.right w.x; dir = walk_down }, false)
  walk_round w walk_up =
      let up = s.parent w.x in
      if up == s.nil
      then (record w { x = up }, true)
      else (if w.x == s.left up
          then (
            record (if preorder then w else call_back walk_fn w (s.item up)) {
              x = up;
              dir = walk_right;
            },
            false,
          )
          else (record w { x = up }, false))

  -- The loop: what the callback keeps, and the node returned.
  pub walker_loop : ℕ → Walker U → Option (U × ℕ)
  unfolding walk_round
  walker_loop zero w = none
  walker_loop (suc fuel) w = elim (w.lcnt == 0 || w.x == s.nil) [
    | true ↦ some (w.state, w.x)
    | false ↦
        let r = walk_round w w.dir in
        elim r.1 [ true ↦ some (r.0.state, 0) | false ↦ walker_loop fuel r.0 ]
  ]

  -- `_std_rbtree_walk`; `cnt` is taken as the `u_long` that it becomes.
  pub node_walk : ℕ → U → (x cnt : ℕ) → Option (U × ℕ)
  unfolding walker_loop
  node_walk fuel u x cnt = walker_loop fuel (record {
    state = u;
    lcnt = if cnt == 0 then 0xffffffff else cnt;
    x = if x == 0 then s.root else x;
    dir = if x == 0 then walk_down else walk_right;
  })

  unfoldable pub std_rbtree_walk : ℕ → (ℕ → ℕ → ℤ) → U → (item cnt : ℕ) → Option (U × ℕ)
  unfolding node_getexactornext node_walk Option.bind
  std_rbtree_walk fuel cmp u item cnt =
      Option.bind (if item == 0 then some 0 else node_getexactornext fuel cmp s item) λ x.
        Option.map (λ r. (r.0, if r.1 == 0 || r.1 == s.nil then 0 else s.item r.1))
          (node_walk fuel u x cnt)
