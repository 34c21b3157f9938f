-- ===== src/Storage/Matches.antt =====
-- What `Query` returns: the entries of the store that satisfy every term of the expression.
use mathlib.Core.Path.{subst}
use vc_go.Prelude.{
  ap, suc, ℕ, ◌<◌, ◌≡◌, ◌∙◌, refl, ◌⊎◌, inl, inr, Bool, true, ◌&&◌, ◌==◌, List, [], ◌∷◌, Option,
  none, some, arith, if◌then◌else◌, Bool-cases, Option-cases, length, Str, str_eq, str_eq_iff,
}
use vc_go.Prelude.Dicts.{Dict, lookup, insert, IsMap}
use vc_go.Prelude.Strings.{split_byte, cons_head}
use vc_go.Storage.Types.{Tag, DbEntry, MemStore, invalid_expression, ok}
use vc_go.Storage.Query.{
  QueryOptions, check_for_unsupported_query_options, split_and, Term, term_of_parts, has_tag,
  matching_entries, query_parts, common_db_entries, check_expression, query,
}
use vc_go.Storage.Common.{AllMaps, AllFrom, in_all, lookup-common_db_entries}
use vc_go.Storage.Entries.{then-ok}
use vc_go.Storage.Handles.{found-ok}

lookup-matching_entries :
    (term : Term) (db : Dict DbEntry) (k : Str)
    → IsMap db
    → lookup k (matching_entries term db)
      ≡ elim (lookup k db) [ none ↦ none | some e ↦ if has_tag term e.tags then some e else none ]
unfolding matching_entries lookup
lookup-matching_entries term [] k h = refl
lookup-matching_entries term ((j, e) ∷ db) k (new, h) = elim (Bool-cases (str_eq j k)) [
  | inl here ↦
      let same = (str_eq_iff j k).0 here in
      let absent : lookup k db ≡ none = subst (λ x. lookup x db ≡ none) same new in
      ground (arith, lookup-matching_entries term db k h)
  | inr there ↦ ground (arith, lookup-matching_entries term db k h)
]

IsMap-matching_entries :
    (term : Term) (db : Dict DbEntry) → IsMap db → IsMap (matching_entries term db)
unfolding matching_entries
IsMap-matching_entries term [] h = tt
IsMap-matching_entries term ((j, e) ∷ db) (new, h) = elim (Bool-cases (has_tag term e.tags)) [
  | inl has ↦
      rw has (ground (arith, lookup-matching_entries term db j h), IsMap-matching_entries term db h)
  | inr lacks ↦ rw lacks (IsMap-matching_entries term db h)
]

-- The terms of the expression: a later term takes the place of an earlier one of the same name.
pub read_terms : List Str → Dict Term → Option (Dict Term)
read_terms [] terms = some terms
read_terms (part ∷ parts) terms = elim (term_of_parts (split_byte b':' part)) [
  | none ↦ none
  | some term ↦ read_terms parts (insert term.name term terms)
]

-- The entry has a tag for each of the terms.
pub satisfies : Dict Term → List Tag → Bool
satisfies [] tags = true
satisfies ((name, term) ∷ terms) tags = has_tag term tags && satisfies terms tags

results_of : Dict DbEntry → Dict Term → Dict (Dict DbEntry)
results_of db [] = []
results_of db ((name, term) ∷ terms) = (name, matching_entries term db) ∷ results_of db terms

results_of-insert :
    (db : Dict DbEntry) (term : Term) (terms : Dict Term)
    → insert term.name (matching_entries term db) (results_of db terms)
      ≡ results_of db (insert term.name term terms)
unfolding results_of insert
results_of-insert db term [] = refl
results_of-insert db term ((name, other) ∷ terms) = elim (Bool-cases (str_eq name term.name)) [
  | inl here ↦ rw here refl
  | inr there ↦ rw (there, results_of-insert db term terms) refl
]

read_terms-rest :
    (part : Str) (parts : List Str) (terms : Dict Term) (term : Term)
    → term_of_parts (split_byte b':' part) ≡ some term
    → read_terms (part ∷ parts) terms ≡ read_terms parts (insert term.name term terms)
unfolding read_terms
read_terms-rest part parts terms term read = rw (read, read_terms) refl

-- The loop reads the terms, and its results are the matches of each.
query_parts-read_terms :
    (parts : List Str) (db : Dict DbEntry) (terms : Dict Term) (results : Dict (Dict DbEntry))
    → query_parts parts db (results_of db terms) ≡ ok results
    → (ts : Dict Term) × (read_terms parts terms ≡ some ts) × (results_of db ts ≡ results)
unfolding query_parts read_terms
query_parts-read_terms [] db terms results h = (terms, refl, cc)
query_parts-read_terms (part ∷ parts) db terms results h =
    let (term, read, rest) =
      found-ok (term_of_parts (split_byte b':' part)) invalid_expression _ h in
    let (ts, e, same) =
      query_parts-read_terms parts db (insert term.name term terms) results
        (rw (results_of-insert db term terms) at rest) in
    (ts, read_terms-rest part parts terms term read ∙ e, same)

results_of-AllMaps :
    (db : Dict DbEntry) (terms : Dict Term) → IsMap db → AllMaps (results_of db terms)
unfolding results_of
results_of-AllMaps db [] h = tt
results_of-AllMaps db ((name, term) ∷ terms) h =
    (IsMap-matching_entries term db h, results_of-AllMaps db terms h)

matching_entries-from :
    (db : Dict DbEntry) (k : Str) (term : Term)
    → IsMap db
    → (lookup k (matching_entries term db) ≡ none)
      ⊎ (lookup k (matching_entries term db) ≡ lookup k db)
matching_entries-from db k term h = ground (arith, lookup-matching_entries term db k h)

results_of-AllFrom :
    (db : Dict DbEntry) (k : Str) (terms : Dict Term)
    → IsMap db
    → AllFrom db k (results_of db terms)
unfolding results_of
results_of-AllFrom db k [] h = tt
results_of-AllFrom db k ((name, term) ∷ terms) h =
    (matching_entries-from db k term h, results_of-AllFrom db k terms h)

in_all-satisfies :
    (db : Dict DbEntry) (k : Str) (terms : Dict Term) (e : DbEntry)
    → IsMap db
    → lookup k db ≡ some e
    → in_all k (results_of db terms) ≡ satisfies terms e.tags
unfolding results_of satisfies
in_all-satisfies db k [] e h there = refl
in_all-satisfies db k ((name, term) ∷ terms) e h there =
    ground (arith, lookup-matching_entries term db k h, in_all-satisfies db k terms e h there)

lookup-common_results :
    (db : Dict DbEntry) (k : Str) (terms : Dict Term)
    → IsMap db
    → 0 < length (results_of db terms)
    → lookup k (common_db_entries (results_of db terms)) ≡ elim (lookup k db) [
      | none ↦ none
      | some e ↦ if satisfies terms e.tags then some e else none
    ]
lookup-common_results db k terms h more =
    rw
      (lookup-common_db_entries db k (results_of db terms) more (results_of-AllMaps db terms h)
        (results_of-AllFrom db k terms h))
      (elim (Option-cases (lookup k db)) [
        | inl missing ↦ rw missing (ground arith)
        | inr (e, there) ↦ rw (there, in_all-satisfies db k terms e h there) refl
      ])

length-insert : (name : Str) (term : Term) (terms : Dict Term) → 0 < length (insert name term terms)
unfolding insert
length-insert name term [] = omega arith
length-insert name term ((j, t) ∷ terms) = ground arith

length-read_terms :
    (parts : List Str) (terms ts : Dict Term)
    → (0 < length parts) ⊎ (0 < length terms)
    → read_terms parts terms ≡ some ts
    → 0 < length ts
unfolding read_terms
length-read_terms [] terms ts more h = ground arith
length-read_terms (part ∷ parts) terms ts more h =
    elim (Option-cases (term_of_parts (split_byte b':' part))) [
      | inl bad ↦ ground arith
      | inr (term, good) ↦
          length-read_terms parts (insert term.name term terms) ts
            (inr (length-insert term.name term terms)) (rw (good, read_terms) at h)
    ]

length-results_of :
    (db : Dict DbEntry) (terms : Dict Term) → length (results_of db terms) ≡ length terms
unfolding results_of
length-results_of db [] = refl
length-results_of db ((name, term) ∷ terms) = ap suc (length-results_of db terms)

length-cons_head : (c : ℕ) (parts : List Str) → 0 < length (cons_head c parts)
length-cons_head c [] = omega arith
length-cons_head c (part ∷ parts) = omega arith

length-split_and : (s : Str) → 0 < length (split_and s)
unfolding split_and
length-split_and [] = omega arith
length-split_and (a ∷ []) = omega arith
length-split_and (a ∷ b ∷ s) = elim (Bool-cases (a == b'&' && b == b'&')) [
  | inl separated ↦ rw separated (omega arith)
  | inr joined ↦ rw joined (length-cons_head a (split_and (b ∷ s)))
]

query-query_parts :
    (expression : Str) (options : List (QueryOptions → QueryOptions)) (m : MemStore)
    (found : Dict DbEntry)
    → query expression options m ≡ ok found
    → (results : Dict (Dict DbEntry)) × (query_parts (split_and expression) m.db [] ≡ ok results)
      × (common_db_entries results ≡ found)
unfolding query
query-query_parts expression options m found h =
    let (_, _, h1) = then-ok (check_for_unsupported_query_options options) _ h in
    let (_, _, h2) = then-ok (check_expression expression) _ h1 in
    let (results, parts, h3) = then-ok (query_parts (split_and expression) m.db []) _ h2 in
    (results, parts, cc)

-- On a store that has one entry for a key, a successful `Query` has read terms from the expression,
-- where a later term takes the place of an earlier one of the same name, and its result has under
-- each key the store's entry if that has a tag for every term, and nothing otherwise.
pub lookup-query :
    (expression : Str) (options : List (QueryOptions → QueryOptions)) (m : MemStore)
    (found : Dict DbEntry)
    → IsMap m.db
    → query expression options m ≡ ok found
    → (ts : Dict Term) × (read_terms (split_and expression) [] ≡ some ts)
      × ((k : Str)
          → lookup k found ≡ elim (lookup k m.db) [
            | none ↦ none
            | some e ↦ if satisfies ts e.tags then some e else none
          ])
unfolding results_of
lookup-query expression options m found h done =
    let (results, parts, common) = query-query_parts expression options m found done in
    let (ts, read, same) = query_parts-read_terms (split_and expression) m.db [] results parts in
    let many =
      length-read_terms (split_and expression) [] ts (inl (length-split_and expression)) read in
    (
      ts,
      read,
      λ k.
          subst
            (λ x. lookup k x ≡ elim (lookup k m.db) [
              | none ↦ none
              | some e ↦ if satisfies ts e.tags then some e else none
            ])
            (ap common_db_entries same ∙ common)
            (lookup-common_results m.db k ts h (omega (arith, length-results_of m.db ts))),
    )
