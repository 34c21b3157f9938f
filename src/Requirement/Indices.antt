-- ===== src/Requirement/Indices.antt =====
-- The set of excluded indices: how `Next` fills it, and the flags that it stands for.
use native.Mathlib.Nat.{add-zero}
use vc_go.Prelude.{
  ℕ, zero, suc, ◌+◌, ◌≤◌, ◌<◌, ◌≡◌, refl, ap, inl, inr, Bool, false, List, [], ◌∷◌, ◌++◌, arith,
  length, Bool-cases, ℕ_discrete, Str,
}
use vc_go.Requirement.Iterator.{has_index, remove_excluded}
use vc_go.Requirement.Widen.{remove, removed}

abbrev pub Distinct : List ℕ → Type 0
Distinct [] = Unit
Distinct (j ∷ js) = (has_index js j ≡ false) × Distinct js

-- Every index lies below the bound.
abbrev pub Below : ℕ → List ℕ → Type 0
Below m [] = Unit
Below m (j ∷ js) = (j < m) × Below m js

-- `m` flags, from index `i` on.
unfoldable pub flags_of : List ℕ → ℕ → ℕ → List Bool
flags_of ex i zero = []
flags_of ex i (suc m) = has_index ex i ∷ flags_of ex (i + 1) m

pub length-flags_of : (ex : List ℕ) (i m : ℕ) → length (flags_of ex i m) ≡ m
unfolding flags_of
length-flags_of ex i zero = refl
length-flags_of ex i (suc m) = ap suc (length-flags_of ex (i + 1) m)

has_index-Below : (m : ℕ) (ex : List ℕ) (j : ℕ) → Below m ex → m ≤ j → has_index ex j ≡ false
unfolding has_index
has_index-Below m [] j h p = refl
has_index-Below m (x ∷ ex) j h p = ground (arith, has_index-Below m ex j h.1 p)

remove_excluded-none :
    (ex : List ℕ) (i : ℕ) (ds : List Str) → Below i ex → remove_excluded ex i ds ≡ ds
unfolding remove_excluded
remove_excluded-none ex i [] h = refl
remove_excluded-none ex i (d ∷ ds) h =
    rw
      (has_index-Below i ex i h (omega arith), remove_excluded-none ex (i + 1) ds (Below-mono ex h))
  where
    Below-mono : (ex : List ℕ) → Below i ex → Below (i + 1) ex
    Below-mono [] h = tt
    Below-mono (x ∷ ex) (p, h) = (omega arith, Below-mono ex h)

-- The loop that rebuilds `b.descs` removes the flagged descriptors.
pub remove_excluded-flags :
    (ex : List ℕ) (i m : ℕ) (ds : List Str)
    → Below (i + m) ex
    → remove_excluded ex i ds ≡ remove (flags_of ex i m) ds
unfolding remove_excluded remove flags_of
remove_excluded-flags ex i zero ds h = remove_excluded-none ex i ds (rw add-zero at h)
remove_excluded-flags ex i (suc m) [] h = refl
remove_excluded-flags ex i (suc m) (d ∷ ds) h =
    let shift : i + suc m ≡ i + 1 + m = omega arith in
    let rest = remove_excluded-flags ex (i + 1) m ds (rw shift at h) in
    elim (Bool-cases (has_index ex i)) [ inl gone ↦ rw (gone, rest) | inr stays ↦ rw (stays, rest) ]

pub flags_of-suc :
    (ex : List ℕ) (i m : ℕ) → flags_of ex i (suc m) ≡ flags_of ex i m ++ has_index ex (i + m) ∷ []
unfolding flags_of
flags_of-suc ex i zero = rw add-zero
flags_of-suc ex i (suc m) =
    let shift : i + suc m ≡ i + 1 + m = omega arith in
    rw shift (ap (◌∷◌ (has_index ex i)) (flags_of-suc ex (i + 1) m))

flags_of-before : (j : ℕ) (ex : List ℕ) (i m : ℕ) → j < i → flags_of (j ∷ ex) i m ≡ flags_of ex i m
unfolding flags_of has_index
flags_of-before j ex i zero h = refl
flags_of-before j ex i (suc m) h = ground (arith, flags_of-before j ex (i + 1) m)

removed-flags_of-cons :
    (j : ℕ) (ex : List ℕ) (i m : ℕ)
    → has_index ex j ≡ false
    → i ≤ j
    → j < i + m
    → removed (flags_of (j ∷ ex) i m) ≡ suc (removed (flags_of ex i m))
unfolding flags_of has_index removed
removed-flags_of-cons j ex i zero new h k = absurd (omega arith)
removed-flags_of-cons j ex i (suc m) new h k = elim (ℕ_discrete i j) [
  | yes here ↦ ground (arith, flags_of-before j ex (i + 1) m)
  | no later ↦ ground (arith, removed-flags_of-cons j ex (i + 1) m)
]

removed-flags_of-nil : (i m : ℕ) → removed (flags_of [] i m) ≡ 0
unfolding flags_of has_index removed
removed-flags_of-nil i zero = refl
removed-flags_of-nil i (suc m) = removed-flags_of-nil (i + 1) m

-- As many are removed as there are indices.
pub removed-flags_of :
    (ex : List ℕ) (m : ℕ) → Distinct ex → Below m ex → removed (flags_of ex 0 m) ≡ length ex
removed-flags_of [] m d b = removed-flags_of-nil 0 m
removed-flags_of (j ∷ ex) m (new, d) (lt, b) =
    rw (removed-flags_of-cons j ex 0 m new (omega arith) (omega arith))
      (ap suc (removed-flags_of ex m d b))
