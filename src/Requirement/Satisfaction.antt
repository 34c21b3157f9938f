-- ===== src/Requirement/Satisfaction.antt =====
-- What `IsSatisfiedBy` and `GetAllDescriptors` decide.
use vc_go.Prelude.{
  ◌≡◌, refl, Bool, true, false, ◌||◌, List, [], ◌∷◌, arith, Str, str_eq, str_eq_self,
}
use vc_go.Requirement.Sets.{
  StringSet, has, has-init_from_slice, add_all, has-add_all, merge_into, merge_all,
}
use vc_go.Requirement.Logic.{
  RequirementLogic, requirement, Nested, nil, cons, satisfied_descriptors, is_satisfied_by,
  num_satisfied, get_all_descriptors, child_sets,
}

-- The descriptors that the leaves of a requirement name.
unfoldable mutual
  pub mentions : RequirementLogic → Str → Bool
  mentions (requirement ids nil count min max) x = has ids x
  mentions (requirement ids (cons r rs) count min max) x = mentions r x || mentions_nested rs x

  pub mentions_nested : Nested → Str → Bool
  mentions_nested nil x = false
  mentions_nested (cons r rs) x = mentions r x || mentions_nested rs x

has_any : List StringSet → Str → Bool
has_any [] x = false
has_any (s ∷ ss) x = has s x || has_any ss x

or_assoc : (a b c : Bool) → ((a || b) || c) ≡ (a || (b || c))
or_assoc a b c = ground arith

has-merge_into :
    (out : StringSet) (sets : List StringSet) (x : Str)
    → has (merge_into out sets) x ≡ (has out x || has_any sets x)
unfolding merge_into has_any
has-merge_into out [] x = ground arith
has-merge_into out (s ∷ ss) x =
    rw (has-merge_into (add_all out s) ss x, has-add_all)
      (or_assoc (has out x) (has s x) (has_any ss x))

mutual
  unfolding has get_all_descriptors child_sets mentions mentions_nested has_any merge_all

  has-all : (r : RequirementLogic) (x : Str) → has (get_all_descriptors r) x ≡ mentions r x
  has-all (requirement ids nil count min max) x = has-init_from_slice ids x
  has-all (requirement ids (cons r rs) count min max) x = rw (
    has-merge_into [] (get_all_descriptors r ∷ child_sets rs) x,
    has-all r x,
    has_any-children rs x,
  )

  has_any-children : (rs : Nested) (x : Str) → has_any (child_sets rs) x ≡ mentions_nested rs x
  has_any-children nil x = refl
  has_any-children (cons r rs) x = rw (has-all r x, has_any-children rs x)

-- `GetAllDescriptors` returns exactly the descriptors that the leaves name.
pub has-get_all_descriptors :
    (r : RequirementLogic) (x : Str) → has (get_all_descriptors r) x ≡ mentions r x
has-get_all_descriptors r x = has-all r x

-- The two sets have the same of the descriptors that pass the test.
abbrev AgreeOn : (Str → Bool) → StringSet → StringSet → Type 0
AgreeOn p d e = (x : Str) → p x ≡ true → has d x ≡ has e x

or_left : (a b : Bool) → a ≡ true → (a || b) ≡ true
or_left a b h = ground arith

or_right : (a b : Bool) → b ≡ true → (a || b) ≡ true
or_right a b h = ground arith

satisfied_descriptors-agree :
    (d e : StringSet) (ids : List Str) (acc : StringSet)
    → AgreeOn (has ids) d e
    → satisfied_descriptors d ids acc ≡ satisfied_descriptors e ids acc
unfolding satisfied_descriptors has
satisfied_descriptors-agree d e [] acc h = refl
satisfied_descriptors-agree d e (id ∷ ids) acc h =
    rw (h id (or_left (str_eq id id) (has ids id) (str_eq_self id)))
      (satisfied_descriptors-agree d e ids _ λ x m. h x (or_right (str_eq id x) (has ids x) m))

mutual
  unfolding is_satisfied_by num_satisfied mentions mentions_nested

  satisfied-agree :
      (r : RequirementLogic) (d e : StringSet)
      → AgreeOn (mentions r) d e
      → is_satisfied_by r d ≡ is_satisfied_by r e
  satisfied-agree (requirement ids nil count min max) d e h =
      rw (satisfied_descriptors-agree d e ids [] h)
  satisfied-agree (requirement ids (cons r rs) count min max) d e h = rw (
    satisfied-agree r d e (λ x m. h x (or_left (mentions r x) (mentions_nested rs x) m)),
    num-agree rs d e (λ x m. h x (or_right (mentions r x) (mentions_nested rs x) m)),
  )

  num-agree :
      (rs : Nested) (d e : StringSet)
      → AgreeOn (mentions_nested rs) d e
      → num_satisfied rs d ≡ num_satisfied rs e
  num-agree nil d e h = refl
  num-agree (cons r rs) d e h = rw (
    satisfied-agree r d e (λ x m. h x (or_left (mentions r x) (mentions_nested rs x) m)),
    num-agree rs d e (λ x m. h x (or_right (mentions r x) (mentions_nested rs x) m)),
  )

-- `IsSatisfiedBy` reads a set only at the descriptors that `GetAllDescriptors` reports: two sets
-- with the same of those get the same answer.
pub is_satisfied_by-agree :
    (r : RequirementLogic) (d e : StringSet)
    → ((x : Str) → has (get_all_descriptors r) x ≡ true → has d x ≡ has e x)
    → is_satisfied_by r d ≡ is_satisfied_by r e
is_satisfied_by-agree r d e h = satisfied-agree r d e λ x m. h x (rw (has-all r x) m)
