-- ===== src/Seal/Routes/Tree.antt =====
-- crates/naome-memory-core/src/seal.rs: `RouteChoices::new` and `insert`, and what each node holds.
use naome_memory.Base.{
  ℕ, zero, suc, ◌+◌, ◌*◌, ◌/◌, ◌≤◌, ◌<◌, ◌≢◌, ◌≡◌, ◌∙◌, refl, ap, inl, inr, List, [], ◌∷◌, Option,
  none, false, arith, length, get_or, set, ltb, ◌==◌, if◌then◌else◌, Bool-cases, ==_iff, ltb→lt,
}
use naome_memory.Seal.Routes.{RouteChoice, best_route_choice, node_at, climb}

pub length-set : {A : Type 0} (xs : List A) (i : ℕ) (v : A) → length (set xs i v) ≡ length xs
length-set [] i v = refl
length-set (x ∷ xs) zero v = refl
length-set (x ∷ xs) (suc i) v = ap suc (length-set xs i v)

pub get_or-set :
    {A : Type 0} (xs : List A) (i j : ℕ) (v d : A)
    → i < length xs
    → get_or (set xs i v) j d ≡ (if i == j then v else get_or xs j d)
get_or-set [] i j v d h = absurd (omega arith)
get_or-set (x ∷ xs) zero zero v d h = refl
get_or-set (x ∷ xs) zero (suc j) v d h = ground arith
get_or-set (x ∷ xs) (suc i) zero v d h = ground arith
get_or-set (x ∷ xs) (suc i) (suc j) v d h = get_or-set xs i j v d (omega arith) ∙ ground arith

eq-false : (i j : ℕ) → i ≢ j → (i == j) ≡ false
eq-false i j h = ground arith

pub get_or-set_same :
    {A : Type 0} (xs : List A) (i j : ℕ) (v d : A)
    → i < length xs
    → i ≡ j
    → get_or (set xs i v) j d ≡ v
get_or-set_same xs i j v d h e =
    get_or-set xs i j v d h ∙ ap (λ b. if b then v else get_or xs j d) ((==_iff i j).1 e)

pub get_or-set_other :
    {A : Type 0} (xs : List A) (i j : ℕ) (v d : A)
    → i < length xs
    → i ≢ j
    → get_or (set xs i v) j d ≡ get_or xs j d
get_or-set_other xs i j v d h ne =
    get_or-set xs i j v d h ∙ ap (λ b. if b then v else get_or xs j d) (eq-false i j ne)

nodes_eq :
    {a b c d e f : Option RouteChoice}
    → a ≡ d
    → b ≡ e
    → c ≡ f
    → d ≡ best_route_choice e f
    → a ≡ best_route_choice b c
nodes_eq p q r h = cc

-- An inner node holds the better of its children.
abbrev pub Holds : List (Option RouteChoice) → ℕ → Type 0
Holds nodes i =
    node_at nodes i ≡ best_route_choice (node_at nodes (i * 2)) (node_at nodes (i * 2 + 1))

abbrev pub HoldsBut : ℕ → ℕ → List (Option RouteChoice) → Type 0
HoldsBut leaf k nodes = (i : ℕ) → 1 ≤ i → i < leaf → i ≢ k → Holds nodes i

abbrev pub IsTree : ℕ → List (Option RouteChoice) → Type 0
IsTree leaf nodes = (i : ℕ) → 1 ≤ i → i < leaf → Holds nodes i

module _ (leaf : ℕ) where
  -- One round of the loop moves the node that need not hold to its parent.
  raise :
      (nodes : List (Option RouteChoice)) (p : ℕ)
      → length nodes ≡ leaf * 2
      → 1 ≤ p
      → p < leaf
      → HoldsBut leaf p nodes
      → HoldsBut leaf
          (p / 2)
          (set nodes p (best_route_choice (node_at nodes (p * 2)) (node_at nodes (p * 2 + 1))))
  raise nodes p size positive small holds i low high ne =
      let v = best_route_choice (node_at nodes (p * 2)) (node_at nodes (p * 2 + 1)) in
      let left = get_or-set_other nodes p (i * 2) v none (omega arith) (λ e. omega arith) in
      let right = get_or-set_other nodes p (i * 2 + 1) v none (omega arith) (λ e. omega arith) in
      elim (Bool-cases (p == i)) [
        | inl e ↦
            let same = (==_iff p i).0 e in
            nodes_eq (get_or-set_same nodes p i v none (omega arith) same) left right
              (ap (λ k. best_route_choice (node_at nodes (k * 2)) (node_at nodes (k * 2 + 1))) same)
        | inr e ↦
            nodes_eq (get_or-set_other nodes p i v none (omega arith) (λ q. ground arith)) left
              right (holds i low high (λ q. ground arith))
      ]

  pub climb-IsTree :
      (fuel : ℕ) (nodes : List (Option RouteChoice)) (node : ℕ)
      → length nodes ≡ leaf * 2
      → node < leaf * 2
      → node ≤ fuel
      → HoldsBut leaf (node / 2) nodes
      → IsTree leaf (climb fuel nodes node)
  unfolding climb
  climb-IsTree zero nodes node size small enough holds =
      λ i low high. holds i low high (λ e. omega arith)
  climb-IsTree (suc fuel) nodes node size small enough holds = elim (Bool-cases (ltb 1 node)) [
    | inl e ↦
        let more = ltb→lt 1 node e in
        rw e (
          climb-IsTree fuel _ (node / 2) (length-set nodes _ _ ∙ size) (omega arith) (omega arith)
            (raise nodes (node / 2) size (omega arith) (omega arith) holds))
    | inr e ↦ rw e (λ i low high. holds i low high (λ q. ground arith))
  ]

  pub climb-leaf :
      (fuel : ℕ) (nodes : List (Option RouteChoice)) (node j : ℕ)
      → length nodes ≡ leaf * 2
      → node < leaf * 2
      → leaf ≤ j
      → node_at (climb fuel nodes node) j ≡ node_at nodes j
  unfolding climb
  climb-leaf zero nodes node j size small high = refl
  climb-leaf (suc fuel) nodes node j size small high = elim (Bool-cases (ltb 1 node)) [
    | inl e ↦
        let more = ltb→lt 1 node e in
        rw e (
          climb-leaf fuel _ (node / 2) j (length-set nodes _ _ ∙ size) (omega arith) high
          ∙ get_or-set_other nodes (node / 2) j _ none (omega arith) (λ q. omega arith))
    | inr e ↦ rw e refl
  ]

  pub length-climb :
      (fuel : ℕ) (nodes : List (Option RouteChoice)) (node : ℕ)
      → length (climb fuel nodes node) ≡ length nodes
  unfolding climb
  length-climb zero nodes node = refl
  length-climb (suc fuel) nodes node = elim (Bool-cases (ltb 1 node)) [
    | inl e ↦ rw e (length-climb fuel _ (node / 2) ∙ length-set nodes _ _)
    | inr e ↦ rw e refl
  ]
