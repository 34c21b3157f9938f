-- ===== src/Storage/Query.antt =====
-- legacy/mem/mem.go: `Query` and its helpers. A result list is the two slices `keys` and `dbEntries`
-- side by side.
use vc_go.Prelude.{
  ℕ, ◌+◌, Bool, true, false, not, ◌&&◌, ◌||◌, List, [], ◌∷◌, Option, none, some, if◌then◌else◌,
  length, ◌==◌, Str, str_eq,
}
use vc_go.Prelude.Int.{ℤ, pos, eqb_ℤ}
use vc_go.Prelude.Dicts.{Dict, lookup, insert}
use vc_go.Prelude.Strings.{cons_head, split_byte}
use vc_go.Storage.Types.{
  Tag, DbEntry, MemStore, invalid_expression, page_not_supported, sort_not_supported, Result, ok,
  err, ◌>>=◌,
}

-- What the code reads of `spi.QueryOptions`.
pub record QueryOptions : Type 0 where
  pub initial_page_num : ℤ
  pub has_sort_options : Bool

-- An option changes the settings, which start at zero.
unfoldable pub get_query_options : List (QueryOptions → QueryOptions) → QueryOptions → QueryOptions
get_query_options [] settings = settings
get_query_options (option ∷ options) settings = get_query_options options (option settings)

unfoldable pub check_for_unsupported_query_options :
    List (QueryOptions → QueryOptions) → Result (Unit {0})
check_for_unsupported_query_options options =
    let settings =
      get_query_options options (record { initial_page_num = pos 0; has_sort_options = false }) in
    if not (eqb_ℤ settings.initial_page_num (pos 0))
    then err page_not_supported
    else if settings.has_sort_options
    then err sort_not_supported
    else ok tt

-- `strings.Split(s, "&&")`
unfoldable pub split_and : Str → List Str
split_and [] = [] ∷ []
split_and (a ∷ []) = (a ∷ []) ∷ []
split_and (a ∷ b ∷ s) =
    let separated = [] ∷ split_and s in
    let joined = cons_head a (split_and (b ∷ s)) in
    if a == b'&' && b == b'&' then separated else joined

-- A name with a value, which is empty for any value.
pub record Term : Type 0 where
  pub name : Str
  pub value : Str

unfoldable pub term_of_parts : List Str → Option Term
term_of_parts [] = none
term_of_parts (name ∷ []) = some (record { name = name; value = [] })
term_of_parts (name ∷ value ∷ []) = some (record { name = name; value = value })
term_of_parts (name ∷ value ∷ more ∷ rest) = none

-- The first tag that fits ends the inner loop.
unfoldable pub has_tag : Term → List Tag → Bool
has_tag term [] = false
has_tag term (tag ∷ tags) =
    if str_eq tag.name term.name && (str_eq term.value [] || str_eq tag.value term.value)
    then true
    else has_tag term tags

unfoldable pub matching_entries : Term → Dict DbEntry → Dict DbEntry
matching_entries term [] = []
matching_entries term ((key, entry) ∷ db) =
    let rest = matching_entries term db in
    if has_tag term entry.tags then (key, entry) ∷ rest else rest

-- The loop over the parts of the expression: a result for each tag name.
unfoldable pub query_parts :
    List Str → Dict DbEntry → Dict (Dict DbEntry) → Result (Dict (Dict DbEntry))
query_parts [] db results = ok results
query_parts (part ∷ parts) db results = elim (term_of_parts (split_byte b':' part)) [
  | none ↦ err invalid_expression
  | some term ↦ query_parts parts db (insert term.name (matching_entries term db) results)
]

unfoldable pub count_of : Str → Dict ℕ → ℕ
count_of k key_map = elim (lookup k key_map) [ none ↦ 0 | some n ↦ n ]

-- The two maps of `commonDBEntries`, over one result and over all.
unfoldable pub count_result : Dict DbEntry → Dict ℕ → Dict ℕ
count_result [] key_map = key_map
count_result ((k, e) ∷ result) key_map =
    count_result result (insert k (count_of k key_map + 1) key_map)

unfoldable pub collect_values : Dict DbEntry → Dict DbEntry → Dict DbEntry
collect_values [] value_map = value_map
collect_values ((k, e) ∷ result) value_map = collect_values result (insert k e value_map)

unfoldable pub count_results : Dict (Dict DbEntry) → Dict ℕ → Dict ℕ
count_results [] key_map = key_map
count_results ((name, result) ∷ results) key_map =
    count_results results (count_result result key_map)

unfoldable pub collect_results : Dict (Dict DbEntry) → Dict DbEntry → Dict DbEntry
collect_results [] value_map = value_map
collect_results ((name, result) ∷ results) value_map =
    collect_results results (collect_values result value_map)

-- The last loop. The value of a key that was counted is in the map.
unfoldable pub select_common : ℕ → Dict ℕ → Dict DbEntry → Dict DbEntry
select_common num_tags [] value_map = []
select_common num_tags ((k, n) ∷ key_map) value_map =
    let rest = select_common num_tags key_map value_map in
    if n == num_tags
    then elim (lookup k value_map) [ none ↦ rest | some e ↦ (k, e) ∷ rest ]
    else rest

unfoldable pub common_db_entries : Dict (Dict DbEntry) → Dict DbEntry
common_db_entries results =
    select_common (length results) (count_results results []) (collect_results results [])

unfoldable pub check_expression : Str → Result (Unit {0})
check_expression [] = err invalid_expression
check_expression (c ∷ s) = ok tt

unfoldable pub query : Str → List (QueryOptions → QueryOptions) → MemStore → Result (Dict DbEntry)
query expression options m = check_for_unsupported_query_options options >>= λ _.
    check_expression expression >>= λ _.
    query_parts (split_and expression) m.db [] >>= λ results. ok (common_db_entries results)
