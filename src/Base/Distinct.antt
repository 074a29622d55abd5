-- ===== src/Base/Distinct.antt =====
-- Lists of distinct addresses, and lists taken apart at their end.
use sonic_common_utils.Base.{ℕ, ◌≡◌, ◌≢◌, refl, sym, ap, List, [], ◌∷◌, ◌++◌, All}

-- `a` is none of `xs`.
abbrev pub NotIn : ℕ → List ℕ → Type 0
NotIn a xs = All (λ x. x ≢ a) xs

abbrev pub Distinct : List ℕ → Type 0
Distinct [] = Unit
Distinct (x ∷ xs) = NotIn x xs × Distinct xs

module _ {ℓ} (P : ℕ → Type ℓ) where
  pub All-append : (xs ys : List ℕ) → All P xs → All P ys → All P (xs ++ ys)
  All-append [] ys p q = q
  All-append (x ∷ xs) ys p q = (p.0, All-append xs ys p.1 q)

  pub All-left : (xs ys : List ℕ) → All P (xs ++ ys) → All P xs
  All-left [] ys p = tt
  All-left (x ∷ xs) ys p = (p.0, All-left xs ys p.1)

  pub All-right : (xs ys : List ℕ) → All P (xs ++ ys) → All P ys
  All-right [] ys p = p
  All-right (x ∷ xs) ys p = All-right xs ys p.1

pub All-mono {ℓ κ} :
    (P : ℕ → Type ℓ) (Q : ℕ → Type κ) (xs : List ℕ) → ((x : ℕ) → P x → Q x) → All P xs → All Q xs
All-mono P Q [] f h = tt
All-mono P Q (x ∷ xs) f h = (f x h.0, All-mono P Q xs f h.1)

pub Distinct-right : (xs ys : List ℕ) → Distinct (xs ++ ys) → Distinct ys
Distinct-right [] ys d = d
Distinct-right (x ∷ xs) ys d = Distinct-right xs ys d.1

module _ {ℓ} (P : ℕ → Type ℓ) (y : ℕ) where
  pub All-insert :
      (new : ℕ) (xs ys : List ℕ) → P new → All P (xs ++ (y ∷ ys)) → All P (xs ++ (y ∷ new ∷ ys))
  All-insert new [] ys q p = (p.0, (q, p.1))
  All-insert new (x ∷ xs) ys q p = (p.0, All-insert new xs ys q p.1)

  pub All-drop :
      (item : ℕ) (xs ys : List ℕ) → All P (xs ++ (y ∷ item ∷ ys)) → All P (xs ++ (y ∷ ys))
  All-drop item [] ys p = (p.0, p.1.1)
  All-drop item (x ∷ xs) ys p = (p.0, All-drop item xs ys p.1)

  pub All-at : (xs ys : List ℕ) → All P (xs ++ (y ∷ ys)) → P y
  All-at [] ys p = p.0
  All-at (x ∷ xs) ys p = All-at xs ys p.1

  pub All-dropped : (item : ℕ) (xs ys : List ℕ) → All P (xs ++ (y ∷ item ∷ ys)) → P item
  All-dropped item [] ys p = p.1.0
  All-dropped item (x ∷ xs) ys p = All-dropped item xs ys p.1

-- An element of a list of distinct ones is none of the others.
pub NotIn-others : (a : ℕ) (xs ys : List ℕ) → Distinct (xs ++ (a ∷ ys)) → NotIn a (xs ++ ys)
NotIn-others a [] ys d = All-mono (λ x. x ≢ a) (λ x. x ≢ a) ys (λ x n. n) d.0
NotIn-others a (x ∷ xs) ys d =
    ((λ e. All-at (λ z. z ≢ x) a xs ys d.0 (sym e)), NotIn-others a xs ys d.1)

-- A new element may be put behind any element of a list of distinct ones,
pub Distinct-insert :
    (y new : ℕ) (xs ys : List ℕ)
    → NotIn new (xs ++ (y ∷ ys))
    → Distinct (xs ++ (y ∷ ys))
    → Distinct (xs ++ (y ∷ new ∷ ys))
Distinct-insert y new [] ys n d = (((λ e. n.0 (sym e)), d.0), (n.1, d.1))
Distinct-insert y new (x ∷ xs) ys n d = (
  All-insert (λ z. z ≢ x) y new xs ys (λ e. n.0 (sym e)) d.0,
  Distinct-insert y new xs ys n.1 d.1,
)

-- and the element behind any other may be dropped.
pub Distinct-drop :
    (y item : ℕ) (xs ys : List ℕ) → Distinct (xs ++ (y ∷ item ∷ ys)) → Distinct (xs ++ (y ∷ ys))
Distinct-drop y item [] ys d = (d.0.1, d.1.1)
Distinct-drop y item (x ∷ xs) ys d =
    (All-drop (λ z. z ≢ x) y item xs ys d.0, Distinct-drop y item xs ys d.1)

-- The last element of a list that is not empty, and what stands before it.
pub last_split : (x : ℕ) (xs : List ℕ) → (before : List ℕ) × (y : ℕ) × (x ∷ xs ≡ before ++ (y ∷ []))
last_split x [] = ([], x, refl)
last_split x (z ∷ xs) = let (before, y, e) = last_split z xs in (x ∷ before, y, ap (λ zs. x ∷ zs) e)
