-- ===== src/Storage/Methods.antt =====
-- The methods that change a store keep its name and leave a map.
use mathlib.Core.Path.{subst}
use vc_go.Prelude.{◌≡◌, sym, ap, List, [], ◌∷◌, Option, Option-cases, inl, inr, Str}
use vc_go.Prelude.Dicts.{Dict, delete, IsMap, IsMap-insert, IsMap-delete}
use vc_go.Storage.Types.{Tag, DbEntry, MemStore, Result, ok}
use vc_go.Storage.Store.{
  check_key, store_entry, put, delete_key, Operation, check_operations, run_operation,
  run_operations, batch,
}
use vc_go.Storage.Entries.{then-ok, put-store_entry}

-- The methods that change a store.
pub data Method : Type 0 where
  puts : Str → Option Str → List Tag → Method
  deletes : Str → Method
  batches : List Operation → Method

abbrev pub run_method : Method → MemStore → Result MemStore
run_method (puts key value tags) m = put key value tags m
run_method (deletes key) m = delete_key key m
run_method (batches os) m = batch os m

-- A method of a store that keeps its name and leaves a map.
abbrev pub KeepsStore : (MemStore → Result MemStore) → Type 0
KeepsStore method =
    (m m' : MemStore) → method m ≡ ok m' → IsMap m.db → (m'.name ≡ m.name) × IsMap m'.db

-- The store after a change of its entries to a map.
kept :
    (m m' : MemStore) (db : Dict DbEntry)
    → record m { db = db } ≡ m'
    → IsMap db
    → (m'.name ≡ m.name) × IsMap m'.db
kept m m' db e h = (ap (λ x. x.name) (sym e), subst (λ x. IsMap x.db) e h)

put-KeepsStore :
    (key : Str) (value : Option Str) (tags : List Tag) → KeepsStore (put key value tags)
unfolding store_entry
put-KeepsStore key value tags m m' h map =
    let (v, _, _, _, e) = put-store_entry key value tags m m' h in
    kept m m' _ e (IsMap-insert key (record { value = v; tags = tags }) m.db map)

delete_key-KeepsStore : (key : Str) → KeepsStore (delete_key key)
unfolding delete_key
delete_key-KeepsStore key m m' h map =
    let (_, _, h1) = then-ok (check_key key) _ h in
    let e : record m { db = delete key m.db } ≡ m' = cc in kept m m' _ e (IsMap-delete key m.db map)

IsMap-run_operation : (o : Operation) (db : Dict DbEntry) → IsMap db → IsMap (run_operation o db)
unfolding run_operation
IsMap-run_operation o db h = elim (Option-cases o.value) [
  | inl gone ↦ rw gone (IsMap-delete o.key db h)
  | inr (v, stays) ↦ rw stays (IsMap-insert o.key (record { value = v; tags = o.tags }) db h)
]

IsMap-run_operations :
    (os : List Operation) (db : Dict DbEntry) → IsMap db → IsMap (run_operations os db)
unfolding run_operations
IsMap-run_operations [] db h = h
IsMap-run_operations (o ∷ os) db h =
    IsMap-run_operations os (run_operation o db) (IsMap-run_operation o db h)

batch-KeepsStore : (os : List Operation) → KeepsStore (batch os)
unfolding batch
batch-KeepsStore [] m m' h map = cc
batch-KeepsStore (o ∷ os) m m' h map =
    let (_, _, h1) = then-ok (check_operations (o ∷ os)) _ h in
    let e : record m { db = run_operations (o ∷ os) m.db } ≡ m' = cc in
    kept m m' _ e (IsMap-run_operations (o ∷ os) m.db map)

pub run_method-KeepsStore : (method : Method) → KeepsStore (run_method method)
run_method-KeepsStore (puts key value tags) = put-KeepsStore key value tags
run_method-KeepsStore (deletes key) = delete_key-KeepsStore key
run_method-KeepsStore (batches os) = batch-KeepsStore os
