-- ===== src/Requirement/Sets.antt =====
-- presexch/internal/requirementlogic/stringset.go: a Go map used as a set of strings, as the list of
-- its keys. The order of the list stands for the order in which a `range` loop meets the keys.
use vc_go.Prelude.{
  ℕ, ◌≡◌, inl, inr, Bool, false, ◌||◌, List, [], ◌∷◌, ◌++◌, map, arith, length, replicate,
  if◌then◌else◌, Bool-cases, Str, str_eq, str_eq_iff, codes, ◌==◌,
}
use vc_go.Prelude.Strings.{str_leb}

abbrev pub StringSet : Type 0
StringSet = List Str

unfoldable pub has : StringSet → Str → Bool
has [] value = false
has (x ∷ s) value = str_eq x value || has s value

unfoldable pub add : StringSet → Str → StringSet
add s value = if has s value then s else value ∷ s

abbrev pub len : StringSet → ℕ
len s = length s

-- A `for` loop that adds each value.
unfoldable pub add_all : StringSet → List Str → StringSet
add_all s [] = s
add_all s (value ∷ values) = add_all (add s value) values

unfoldable pub init_from_slice : List Str → StringSet
init_from_slice values = add_all [] values

unfoldable pub merge_into : StringSet → List StringSet → StringSet
merge_into out [] = out
merge_into out (set ∷ sets) = merge_into (add_all out set) sets

unfoldable pub merge_all : List StringSet → StringSet
merge_all sets = merge_into [] sets

-- `strings.ReplaceAll(d, "\x00", "\\x00")`
unfoldable pub escape : Str → Str
escape [] = []
escape (c ∷ s) = let rest = escape s in if c == 0 then codes "\\x00" ++ rest else c ∷ rest

-- `sort.Strings`, as insertion into a sorted list.
unfoldable pub insert_sorted : Str → List Str → List Str
insert_sorted x [] = x ∷ []
insert_sorted x (y ∷ ys) = if str_leb x y then x ∷ y ∷ ys else y ∷ insert_sorted x ys

unfoldable pub sort_strings : List Str → List Str
sort_strings [] = []
sort_strings (x ∷ xs) = insert_sorted x (sort_strings xs)

-- `strings.Join(parts, "\x00")`
unfoldable pub join_nul : List Str → Str
join_nul [] = []
join_nul (p ∷ []) = p
join_nul (p ∷ q ∷ ps) = p ++ (0 ∷ join_nul (q ∷ ps))

-- `make([]string, s.Len())` is a slice of that many empty strings, and the loop appends to it.
unfoldable pub to_string : StringSet → Str
to_string s = join_nul (sort_strings (replicate (len s) [] ++ map escape s))

pub has-add : (s : StringSet) (v x : Str) → has (add s v) x ≡ (str_eq v x || has s x)
unfolding has add
has-add s v x = elim (Bool-cases (has s v)) [
  | inl old ↦ rw old (ground (arith, str_eq_iff v x))
  | inr new ↦ rw new
]

pub has-add_all :
    (s : StringSet) (vs : List Str) (x : Str) → has (add_all s vs) x ≡ (has s x || has vs x)
unfolding has add_all
has-add_all s [] x = ground arith
has-add_all s (v ∷ vs) x = rw (has-add_all (add s v) vs x, has-add) (ground arith)

pub has-init_from_slice : (vs : List Str) (x : Str) → has (init_from_slice vs) x ≡ has vs x
unfolding has init_from_slice
has-init_from_slice vs x = has-add_all [] vs x
