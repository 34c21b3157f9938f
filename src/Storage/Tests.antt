-- ===== src/Storage/Tests.antt =====
-- Concrete runs of legacy/mem/mem.go.
use vc_go.Prelude.{
  ℕ, ◌+◌, ◌≡◌, refl, ◌&&◌, List, [], ◌∷◌, map, none, some, if◌then◌else◌, codes, leb, Str, str_eq,
  get_elem?,
}
use vc_go.Prelude.Dicts.{Dict, lookup, insert, delete, IsMap}
use vc_go.Prelude.Strings.{split_byte, contains_byte}
use vc_go.Storage.Types.{Tag, DbEntry, MemStore, ok}
use vc_go.Storage.Store.{
  check_tag, check_tags, check_key, check_value, store_entry, put, find_entry, get, get_tags,
  check_keys, bulk_value, bulk_values, get_bulk, delete_key, Operation, check_operations,
  run_operation, run_operations, batch,
}
use vc_go.Storage.Query.{
  get_query_options, check_for_unsupported_query_options, split_and, Term, term_of_parts, has_tag,
  matching_entries, query_parts, count_of, count_result, count_results, collect_values,
  collect_results, select_common, common_db_entries, check_expression, query,
}
use vc_go.Storage.Cursor.{MemIterator, new_iterator, move_next, total_items}
use vc_go.Storage.Provider.{
  Memory, new_provider, empty_store, open_named, open_store, remove_store, close_store,
  change_store,
}
use vc_go.Storage.Entries.{get-put, batch-by_methods, by_methods, latest, lookup-batch}
use vc_go.Storage.Handles.{IsValid, opens, start, step, new_provider-IsValid}
use vc_go.Storage.Closing.{open_store-open_store, IsOpen, open_store-close_store, close_store_stale}
use vc_go.Storage.Matches.{read_terms, satisfies, lookup-query}
use vc_go.Storage.Iteration.{read_all, reading_of, IsEnd, read_all-new_iterator}

program : Unit {0}
unfolding str_eq lookup insert delete split_byte contains_byte check_tag check_tags check_key
    check_value store_entry put find_entry get get_tags check_keys bulk_value bulk_values get_bulk
    delete_key check_operations run_operation run_operations batch get_query_options
    check_for_unsupported_query_options split_and term_of_parts has_tag matching_entries query_parts
    count_of count_result count_results collect_values collect_results select_common
    common_db_entries check_expression query new_iterator move_next total_items new_provider
    empty_store open_named open_store remove_store close_store change_store
program = tt

abbrev tag : Str → Str → Tag
tag name value = record { name = name; value = value }

abbrev entry : Str → List Tag → DbEntry
entry value tags = record { value = value; tags = tags }

abbrev red : List Tag
red = tag (codes "colour") (codes "red") ∷ []

abbrev red_big : List Tag
red_big = tag (codes "colour") (codes "red") ∷ tag (codes "size") (codes "big") ∷ []

abbrev two_entries : MemStore
two_entries = record {
  name = codes "s";
  db = (codes "a", entry (codes "1") red) ∷ (codes "b", entry (codes "2") red_big) ∷ [];
  config = [];
}

two_entries-IsMap : IsMap two_entries.db
unfolding program
two_entries-IsMap = (refl, (refl, tt))

abbrev three_entries : MemStore
three_entries = record two_entries {
  db = insert (codes "c") (entry (codes "3") red) two_entries.db;
}

stored : put (codes "c") (some (codes "3")) red two_entries ≡ ok three_entries
unfolding program
stored = refl

get-put_example : get (codes "c") three_entries ≡ ok (codes "3")
unfolding program
get-put_example =
    get-put (codes "c") (codes "c") (codes "3") red two_entries three_entries (λ e. cc) stored

abbrev put_c : Operation
put_c = record { key = codes "c"; value = some (codes "3"); tags = red }

abbrev delete_a : Operation
delete_a = record { key = codes "a"; value = none; tags = [] }

batch-by_methods_example :
    batch (put_c ∷ delete_a ∷ []) two_entries ≡ by_methods (put_c ∷ delete_a ∷ []) two_entries
unfolding program
batch-by_methods_example =
    batch-by_methods put_c (delete_a ∷ []) two_entries
      (((λ e. cc), (refl, refl, tt)), (((λ e. cc), tt), tt))

abbrev after_batch : MemStore
after_batch = record two_entries { db = delete (codes "a") three_entries.db }

lookup-batch_example : lookup (codes "a") after_batch.db ≡ none
unfolding program latest
lookup-batch_example = lookup-batch (put_c ∷ delete_a ∷ []) two_entries after_batch (codes "a") refl

abbrev red_and_big : Str
red_and_big = codes "colour:red&&size"

abbrev found_b : Dict DbEntry
found_b = (codes "b", entry (codes "2") red_big) ∷ []

queried : query red_and_big [] two_entries ≡ ok found_b
unfolding program
queried = refl

lookup-query_example :
    (ts : Dict Term) × (read_terms (split_and red_and_big) [] ≡ some ts)
    × ((k : Str)
        → lookup k found_b ≡ elim (lookup k two_entries.db) [
          | none ↦ none
          | some e ↦ if satisfies ts e.tags then some e else none
        ])
lookup-query_example = lookup-query red_and_big [] two_entries found_b two_entries-IsMap queried

read_all-new_iterator_example :
    (end : MemIterator) × (read_all 3 (new_iterator two_entries.db)
      ≡ some (map reading_of two_entries.db, end))
    × IsEnd two_entries.db end
read_all-new_iterator_example = read_all-new_iterator two_entries.db

abbrev lower : Str → Str
lower = map (λ c. if leb b'A' c && leb c b'Z' then c + 32 else c)

abbrev opened : Memory
opened = record { stores = empty_store (codes "s") ∷ []; dbs = (codes "s", 0) ∷ [] }

open_upper : open_store lower (codes "S") new_provider ≡ ok (0, opened)
unfolding program
open_upper = refl

new_provider-IsValid_example : IsValid opened
new_provider-IsValid_example =
    new_provider-IsValid lower (step {u = new_provider} start (opens (codes "S") 0 open_upper))

open_again : open_store lower (codes "s") opened ≡ ok (0, opened)
unfolding program
open_again = refl

abbrev first_store : ℕ
first_store = 0

open_store-open_store_example : (first_store ≡ first_store) × (opened ≡ opened)
open_store-open_store_example =
    open_store-open_store lower (codes "S") (codes "s") new_provider opened opened first_store
      first_store refl open_upper open_again

opened-IsOpen : IsOpen 0 (empty_store (codes "s")) opened
unfolding program
opened-IsOpen = record { found = refl; registered = refl }

abbrev reopened : Memory
reopened = record {
  stores = empty_store (codes "s") ∷ empty_store (codes "s") ∷ [];
  dbs = (codes "s", 1) ∷ [];
}

open_after_close : open_store lower (codes "S") (close_store 0 opened) ≡ ok (1, reopened)
unfolding program
open_after_close = refl

open_store-close_store_example :
    (w' : Memory) × (open_store lower (codes "S") (close_store 0 opened) ≡ ok (1, w'))
    × (get_elem? w'.stores 1 ≡ some (empty_store (codes "s")))
    × (get_elem? w'.stores 0 ≡ some (empty_store (codes "s")))
unfolding program
open_store-close_store_example =
    open_store-close_store 0 (empty_store (codes "s")) opened lower (codes "S") (λ e. cc) refl
      opened-IsOpen

close_store_stale_example : lookup (codes "s") (close_store 0 reopened).dbs ≡ none
unfolding program
close_store_stale_example =
    close_store_stale 0 (empty_store (codes "s")) opened lower (codes "S") (λ e. cc) refl
      opened-IsOpen reopened open_after_close

-- Of two terms of one name only the last counts.
only_last :
    query (codes "colour:blue&&colour:red") [] two_entries
    ≡ query (codes "colour:red") [] two_entries
unfolding program
only_last = refl

-- A batch stores a tag that `Put` refuses.
abbrev colon_tag : List Tag
colon_tag = tag (codes "a:b") [] ∷ []

batch_unchecked :
    batch (record { key = codes "c"; value = some (codes "3"); tags = colon_tag } ∷ []) two_entries
    ≡ ok (record two_entries {
      db = insert (codes "c") (entry (codes "3") colon_tag) two_entries.db;
    })
unfolding program
batch_unchecked = refl
