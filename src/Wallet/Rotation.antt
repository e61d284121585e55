-- ===== src/Wallet/Rotation.antt =====
-- internal/wallet/core/rotation.go: the branches of the seed's tree and which of them is in use.
-- A path m/44'/60'/0'/<n> is given by n; the times are left out.
use web3_blitz.Base.{
  ℕ, suc, ◌≡◌, inl, inr, refl, ◌∙◌, Bool, true, false, Option, none, some, List, [], ◌∷◌, ◌++◌,
  ◌==◌, has_row, find_row, All, All-append, arith, Bool-cases, Option-cases, if◌then◌else◌,
}

record BranchInfo : Type 0 where
  pub generation : ℕ
  pub path : ℕ
  pub deprecated : Bool

record RotationPlan : Type 0 where
  pub generation : ℕ
  pub active_branch : ℕ
  pub branches : List BranchInfo

unfoldable new_rotation_plan : RotationPlan
new_rotation_plan = record {
  generation = 0;
  active_branch = 0;
  branches = record { generation = 0; path = 0; deprecated = false } ∷ [];
}

-- `DeriveNext`; the tree has a key at the new path or not.
unfoldable derive_next : (ℕ → Bool) → RotationPlan → Option ℕ × RotationPlan
derive_next derives p =
    let next = suc p.generation in
    if derives next
    then (
      some next,
      record p {
        branches = p.branches ++ record { generation = next; path = next; deprecated = false } ∷ [];
      },
    )
    else (none, p)

-- `ActivateBranch`: the first branch of the generation, and whether there is one.
unfoldable activate_branch : ℕ → RotationPlan → Bool × RotationPlan
activate_branch g p = elim (find_row (λ b. b.generation == g) p.branches) [
  | none ↦ (false, p)
  | some b ↦ (true, record p { active_branch = b.path; generation = g })
]

-- The first branch of the generation is marked.
unfoldable mark_first : ℕ → List BranchInfo → List BranchInfo
mark_first g [] = []
mark_first g (b ∷ bs) =
    if b.generation == g then record b { deprecated = true } ∷ bs else b ∷ mark_first g bs

-- `DeprecateBranch`.
unfoldable deprecate_branch : ℕ → RotationPlan → Bool × RotationPlan
deprecate_branch g p =
    if g == p.generation
    then (false, p)
    else if has_row (λ b. b.generation == g) p.branches
    then (true, record p { branches = mark_first g p.branches })
    else (false, p)

-- The branch in use is that of the current generation, one of the branches is of that generation,
-- and each branch has its generation's path.
record IsPlan (p : RotationPlan) : Type 0 where
  pub active : p.active_branch ≡ p.generation
  pub known : has_row (λ b. b.generation == p.generation) p.branches ≡ true
  pub paths : All (λ b. b.path ≡ b.generation) p.branches

-- The calls that change a plan.
data PlanCall : Type 0 where
  derive : (ℕ → Bool) → PlanCall
  activate : ℕ → PlanCall
  deprecate : ℕ → PlanCall

apply_plan : PlanCall → RotationPlan → RotationPlan
apply_plan (derive f) p = (derive_next f p).1
apply_plan (activate g) p = (activate_branch g p).1
apply_plan (deprecate g) p = (deprecate_branch g p).1

has_row-append :
    (g : ℕ) (bs cs : List BranchInfo)
    → has_row (λ b. b.generation == g) bs ≡ true
    → has_row (λ b. b.generation == g) (bs ++ cs) ≡ true
unfolding has_row
has_row-append g [] cs h = absurd (ground arith)
has_row-append g (b ∷ bs) cs h = ground (arith, has_row-append g bs cs)

found_lem :
    (g : ℕ) (b : BranchInfo) (bs : List BranchInfo)
    → find_row (λ b. b.generation == g) bs ≡ some b
    → All (λ b. b.path ≡ b.generation) bs
    → (b.path ≡ g) × (has_row (λ b. b.generation == g) bs ≡ true)
unfolding find_row has_row
found_lem g b [] f h = absurd (ground arith)
found_lem g b (x ∷ bs) f h = elim (Bool-cases (x.generation == g)) [
  | inl e ↦ (ground (arith, h.0), ground arith)
  | inr e ↦ let (p, k) = found_lem g b bs (ground arith) h.1 in (p, ground (arith, k))
]

mark_first-known :
    (g k : ℕ) (bs : List BranchInfo)
    → has_row (λ b. b.generation == k) (mark_first g bs) ≡ has_row (λ b. b.generation == k) bs
unfolding mark_first has_row
mark_first-known g k [] = refl
mark_first-known g k (b ∷ bs) = ground (arith, mark_first-known g k bs)

mark_first-paths :
    (g : ℕ) (bs : List BranchInfo)
    → All (λ b. b.path ≡ b.generation) bs
    → All (λ b. b.path ≡ b.generation) (mark_first g bs)
unfolding mark_first
mark_first-paths g [] h = tt
mark_first-paths g (b ∷ bs) h = elim (Bool-cases (b.generation == g)) [
  | inl e ↦ rw e (h.0, h.1)
  | inr e ↦ rw e (h.0, mark_first-paths g bs h.1)
]

derive_next-IsPlan : (f : ℕ → Bool) (p : RotationPlan) → IsPlan p → IsPlan (derive_next f p).1
unfolding derive_next
derive_next-IsPlan f p h = elim (Bool-cases (f (suc p.generation))) [
  | inr e ↦ rw e h
  | inl e ↦ rw e (record {
    active = h.active;
    known = has_row-append p.generation p.branches _ h.known;
    paths = All-append _ p.branches _ h.paths (refl, tt);
  })
]

activate_branch-IsPlan : (g : ℕ) (p : RotationPlan) → IsPlan p → IsPlan (activate_branch g p).1
unfolding activate_branch
activate_branch-IsPlan g p h = elim (Option-cases (find_row (λ b. b.generation == g) p.branches)) [
  | inl e ↦ rw (e, activate_branch) h
  | inr (b, e) ↦
      rw (e, activate_branch)
        (let (path, known) = found_lem g b p.branches e h.paths in
          record { active = path; known = known; paths = h.paths })
]

deprecate_branch-IsPlan : (g : ℕ) (p : RotationPlan) → IsPlan p → IsPlan (deprecate_branch g p).1
unfolding deprecate_branch
deprecate_branch-IsPlan g p h = elim (Bool-cases (g == p.generation)) [
  | inl e ↦ rw e h
  | inr e ↦ rw e (elim (Bool-cases (has_row (λ b. b.generation == g) p.branches)) [
    | inr f ↦ rw f h
    | inl f ↦ rw f (record {
      active = h.active;
      known = mark_first-known g p.generation p.branches ∙ h.known;
      paths = mark_first-paths g p.branches h.paths;
    })
  ])
]

-- Every operation of a rotation plan, answered or refused, keeps the branch in use that of the
-- current generation, and that generation among the branches: the branch in use is never lost.
apply_plan-IsPlan : (c : PlanCall) (p : RotationPlan) → IsPlan p → IsPlan (apply_plan c p)
unfolding apply_plan
apply_plan-IsPlan (derive f) p h = derive_next-IsPlan f p h
apply_plan-IsPlan (activate g) p h = activate_branch-IsPlan g p h
apply_plan-IsPlan (deprecate g) p h = deprecate_branch-IsPlan g p h
