-- ===== src/Storage/Store.antt =====
-- legacy/mem/mem.go: the operations of a store. An operation that changes the store returns it.
use vc_go.Prelude.{List, [], ◌∷◌, Option, none, some, if◌then◌else◌, Str}
use vc_go.Prelude.Dicts.{Dict, lookup, insert, delete}
use vc_go.Prelude.Strings.{contains_byte}
use vc_go.Storage.Types.{
  Tag, DbEntry, MemStore, data_not_found, empty_key, nil_value, no_keys, no_operations,
  invalid_tag_name, invalid_tag_value, Result, ok, err, ◌>>=◌,
}

-- The checks of `Put` on one tag, and on all.
unfoldable pub check_tag : Tag → Result (Unit {0})
check_tag tag =
    if contains_byte b':' tag.name
    then err (invalid_tag_name tag.name)
    else if contains_byte b':' tag.value
    then err (invalid_tag_value tag.value)
    else ok tt

unfoldable pub check_tags : List Tag → Result (Unit {0})
check_tags [] = ok tt
check_tags (tag ∷ tags) = check_tag tag >>= λ _. check_tags tags

unfoldable pub check_key : Str → Result (Unit {0})
check_key [] = err empty_key
check_key (c ∷ key) = ok tt

-- A nil slice is none.
unfoldable pub check_value : Option Str → Result Str
check_value none = err nil_value
check_value (some value) = ok value

unfoldable pub store_entry : Str → DbEntry → MemStore → MemStore
store_entry key entry m = record m { db = insert key entry m.db }

unfoldable pub put : Str → Option Str → List Tag → MemStore → Result MemStore
put key value tags m = check_key key >>= λ _. check_value value >>= λ v.
    check_tags tags >>= λ _. ok (store_entry key (record { value = v; tags = tags }) m)

unfoldable pub find_entry : Str → MemStore → Result DbEntry
find_entry key m =
    check_key key >>= λ _. elim (lookup key m.db) [ none ↦ err data_not_found | some e ↦ ok e ]

unfoldable pub get : Str → MemStore → Result Str
get key m = find_entry key m >>= λ e. ok e.value

unfoldable pub get_tags : Str → MemStore → Result (List Tag)
get_tags key m = find_entry key m >>= λ e. ok e.tags

unfoldable pub check_keys : List Str → Result (Unit {0})
check_keys [] = ok tt
check_keys (key ∷ keys) = check_key key >>= λ _. check_keys keys

-- A key that is missing reads the zero entry, whose value is nil.
unfoldable pub bulk_value : MemStore → Str → Option Str
bulk_value m key = elim (lookup key m.db) [ none ↦ none | some e ↦ some e.value ]

unfoldable pub bulk_values : MemStore → List Str → List (Option Str)
bulk_values m [] = []
bulk_values m (key ∷ keys) = bulk_value m key ∷ bulk_values m keys

unfoldable pub get_bulk : List Str → MemStore → Result (List (Option Str))
get_bulk [] m = err no_keys
get_bulk (key ∷ keys) m = check_keys (key ∷ keys) >>= λ _. ok (bulk_values m (key ∷ keys))

unfoldable pub delete_key : Str → MemStore → Result MemStore
delete_key key m = check_key key >>= λ _. ok (record m { db = delete key m.db })

-- `spi.Operation`
pub record Operation : Type 0 where
  pub key : Str
  pub value : Option Str
  pub tags : List Tag

unfoldable pub check_operations : List Operation → Result (Unit {0})
check_operations [] = ok tt
check_operations (o ∷ os) = check_key o.key >>= λ _. check_operations os

unfoldable pub run_operation : Operation → Dict DbEntry → Dict DbEntry
run_operation o db = elim (o.value) [
  | none ↦ delete o.key db
  | some v ↦ insert o.key (record { value = v; tags = o.tags }) db
]

unfoldable pub run_operations : List Operation → Dict DbEntry → Dict DbEntry
run_operations [] db = db
run_operations (o ∷ os) db = run_operations os (run_operation o db)

unfoldable pub batch : List Operation → MemStore → Result MemStore
batch [] m = err no_operations
batch (o ∷ os) m =
    check_operations (o ∷ os) >>= λ _. ok (record m { db = run_operations (o ∷ os) m.db })
