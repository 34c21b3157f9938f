-- ===== src/SdJwt/Unseen.antt =====
-- How many keys a traversal has not met, which bounds its depth.
use vc_go.Prelude.{
  ℕ, ◌+◌, ◌≤◌, ◌<◌, ◌≡◌, refl, ap, inl, inr, true, false, ◌||◌, List, [], ◌∷◌, ◌++◌, some, arith,
  if◌then◌else◌, Bool-cases, length, Str, str_eq, str_eq_iff,
}
use vc_go.Prelude.Dicts.{Dict, lookup, insert, keys}
use vc_go.Requirement.Sets.{has}

pub unseen : List Str → List Str → ℕ
unseen [] met = 0
unseen (k ∷ ks) met = (if has met k then 0 else 1) + unseen ks met

pub unseen-le-length : (ks met : List Str) → unseen ks met ≤ length ks
unfolding unseen
unseen-le-length [] met = omega arith
unseen-le-length (k ∷ ks) met = ground (arith, unseen-le-length ks met)

pub has-append_one : (s : List Str) (d x : Str) → has (s ++ d ∷ []) x ≡ (has s x || str_eq d x)
unfolding has
has-append_one [] d x = ground arith
has-append_one (k ∷ s) d x = ground (arith, has-append_one s d x)

pub unseen-grows :
    (ks a b : List Str) → ((x : Str) → has a x ≡ true → has b x ≡ true) → unseen ks b ≤ unseen ks a
unfolding unseen
unseen-grows [] a b more = omega arith
unseen-grows (k ∷ ks) a b more = ground (arith, more k, unseen-grows ks a b more)

-- A key that is met for the first time.
pub unseen-append_one :
    (ks met : List Str) (d : Str)
    → has ks d ≡ true
    → has met d ≡ false
    → unseen ks (met ++ d ∷ []) < unseen ks met
unfolding unseen has
unseen-append_one [] met d h new = cc
unseen-append_one (k ∷ ks) met d h new = elim (Bool-cases (str_eq k d)) [
  | inl here ↦
      let same = (str_eq_iff k d).0 here in
      let unmet : has met k ≡ false = rw same new in
      ground (arith, has-append_one met d k, rest-le, same)
  | inr there ↦
      ground
        (arith, unseen-append_one ks met d, has-append_one met d k, str_eq_iff d k, str_eq_iff k d)
]
  where
    rest-le : unseen ks (met ++ d ∷ []) ≤ unseen ks met
    rest-le = unseen-grows ks met (met ++ d ∷ []) (λ x h. ground (arith, has-append_one met d x))

module _ {V : Type 0} where
  pub has-keys : (k : Str) (m : Dict V) {v : V} → lookup k m ≡ some v → has (keys m) k ≡ true
  unfolding lookup has
  has-keys k [] h = cc
  has-keys k ((j, w) ∷ m) {v} h = ground (arith, has-keys k m {v = v})

  -- A key that is there stays in its place.
  pub keys-insert :
      (k : Str) (v : V) (m : Dict V) → has (keys m) k ≡ true → keys (insert k v m) ≡ keys m
  unfolding insert has
  keys-insert k v [] h = cc
  keys-insert k v ((j, w) ∷ m) h = elim (Bool-cases (str_eq j k)) [
    | inl here ↦ rw (here, (str_eq_iff j k).0 here) refl
    | inr there ↦ rw there (ap (λ x. j ∷ x) (keys-insert k v m (ground arith)))
  ]
