-- ===== src/Storage/Entries.antt =====
-- What the operations of a store do to the entry under each key, on every branch.
use mathlib.Core.Path.{subst}
use vc_go.Prelude.{
  ◌≡◌, refl, ◌≢◌, ◌↔◌, inl, inr, false, List, [], ◌∷◌, Option, none, some, arith, if◌then◌else◌,
  Bool-cases, Option-cases, Str, str_eq,
}
use vc_go.Prelude.Dicts.{Dict, lookup, lookup-insert, lookup-delete}
use vc_go.Prelude.Strings.{contains_byte}
use vc_go.Storage.Types.{Tag, DbEntry, MemStore, Result, ok, err, ◌>>=◌}
use vc_go.Storage.Store.{
  check_tag, check_tags, check_key, check_value, store_entry, put, find_entry, get, delete_key,
  Operation, check_operations, run_operation, run_operations, batch,
}

-- The tags that `Put` accepts.
abbrev pub NoColons : List Tag → Type 0
NoColons [] = Unit
NoColons (tag ∷ tags) =
    (contains_byte b':' tag.name ≡ false) × (contains_byte b':' tag.value ≡ false) × NoColons tags

check_tags_iff : (tags : List Tag) → (check_tags tags ≡ ok tt) ↔ NoColons tags
unfolding check_tags check_tag
check_tags_iff [] = (λ h. tt, λ h. refl)
check_tags_iff (tag ∷ tags) =
    (ground (arith, (check_tags_iff tags).0), ground (arith, (check_tags_iff tags).1))

-- What `Put` stores.
pub record IsPut (key : Str) (value : Option Str) (tags : List Tag) (m m' : MemStore) : Type 0 where
  pub has_key : key ≢ []
  pub stored : Str
  pub has_value : value ≡ some stored
  pub plain : NoColons tags
  pub same_name : m'.name ≡ m.name
  pub same_config : m'.config ≡ m.config
  pub entries :
      (k : Str)
      → lookup k m'.db
        ≡ (if str_eq key k then some (record { value = stored; tags = tags }) else lookup k m.db)

pub then-ok :
    {A B : Type 0} {b : B} (first : Result A) (next : A → Result B)
    → (first >>= next) ≡ ok b
    → (a : A) × (first ≡ ok a) × (next a ≡ ok b)
then-ok (err cause) next h = cc
then-ok (ok a) next h = (a, refl, h)

pub check_key-ok : (key : Str) → check_key key ≡ ok tt → key ≢ []
unfolding check_key
check_key-ok [] h = cc
check_key-ok (c ∷ key) h = λ e. cc

check_value-ok : (value : Option Str) {v : Str} → check_value value ≡ ok v → value ≡ some v
unfolding check_value
check_value-ok none h = cc
check_value-ok (some w) h = cc

pub put-store_entry :
    (key : Str) (value : Option Str) (tags : List Tag) (m m' : MemStore)
    → put key value tags m ≡ ok m'
    → (v : Str) × (key ≢ [])
      × (value ≡ some v)
      × NoColons tags
      × (store_entry key (record { value = v; tags = tags }) m ≡ m')
unfolding put
put-store_entry key value tags m m' h =
    let (_, has_key, h1) = then-ok (check_key key) _ h in
    let (v, has_value, h2) = then-ok (check_value value) _ h1 in
    let (_, checked, h3) = then-ok (check_tags tags) _ h2 in
    (
      v,
      check_key-ok key has_key,
      check_value-ok value has_value,
      (check_tags_iff tags).0 checked,
      cc,
    )

-- A successful `Put` has a key, a value and tags without colons, and afterwards the store has the
-- entry under the key, what it had under every other key, and its name and configuration.
pub put-IsPut :
    (key : Str) (value : Option Str) (tags : List Tag) (m m' : MemStore)
    → put key value tags m ≡ ok m'
    → IsPut key value tags m m'
unfolding store_entry
put-IsPut key value tags m m' h =
    let (v, has_key, has_value, plain, e) = put-store_entry key value tags m m' h in
    subst (IsPut key value tags m) e (record {
      has_key = has_key;
      stored = v;
      has_value = has_value;
      plain = plain;
      same_name = refl;
      same_config = refl;
      entries = λ k. lookup-insert key k (record { value = v; tags = tags }) m.db;
    })

check_tags-accepts : (tags : List Tag) → NoColons tags → check_tags tags ≡ ok tt
check_tags-accepts tags h = (check_tags_iff tags).1 h

check_key-accepts : (key : Str) → key ≢ [] → check_key key ≡ ok tt
unfolding check_key
check_key-accepts [] h = absurd (h refl)
check_key-accepts (c ∷ key) h = refl

-- Under a key that is not empty, `Get` after a successful `Put` of a value returns that value at the
-- key of the `Put`, and at any other key what it returned before.
pub get-put :
    (key k value : Str) (tags : List Tag) (m m' : MemStore)
    → k ≢ []
    → put key (some value) tags m ≡ ok m'
    → get k m' ≡ (if str_eq key k then ok value else get k m)
unfolding get find_entry
get-put key k value tags m m' named h =
    let p = put-IsPut key (some value) tags m m' h in
    let has_value = p.has_value in
    let same : value ≡ p.stored = cc in
    elim (Bool-cases (str_eq key k)) [
      | inl here ↦
          let e : lookup k m'.db ≡ some (record { value = p.stored; tags = tags }) =
            rw here at (p.entries k) in
          rw (check_key-accepts k named, e, here, same)
      | inr there ↦
          let e : lookup k m'.db ≡ lookup k m.db = rw there at (p.entries k) in
          rw (check_key-accepts k named, e, there)
    ]

-- An operation with a key, and with tags that `Put` accepts if it stores a value.
abbrev pub IsPlain : Operation → Type 0
IsPlain o = (o.key ≢ []) × NoColons o.tags

abbrev pub AllPlain : List Operation → Type 0
AllPlain [] = Unit
AllPlain (o ∷ os) = IsPlain o × AllPlain os

-- The same operation by the store's methods.
pub by_method : Operation → MemStore → Result MemStore
by_method o m = elim (o.value) [ none ↦ delete_key o.key m | some v ↦ put o.key (some v) o.tags m ]

pub by_methods : List Operation → MemStore → Result MemStore
by_methods [] m = ok m
by_methods (o ∷ os) m = by_method o m >>= by_methods os

by_method-run_operation :
    (o : Operation) (m : MemStore)
    → IsPlain o
    → by_method o m ≡ ok (record m { db = run_operation o m.db })
unfolding by_method run_operation put delete_key check_value store_entry
by_method-run_operation o m (named, plain) =
    ground (arith, check_key-accepts o.key, check_tags-accepts o.tags)

check_operations-accepts : (os : List Operation) → AllPlain os → check_operations os ≡ ok tt
unfolding check_operations
check_operations-accepts [] h = refl
check_operations-accepts (o ∷ os) ((named, _), h) =
    rw (check_key-accepts o.key named) (check_operations-accepts os h)

by_methods-run_operations :
    (os : List Operation) (m : MemStore)
    → AllPlain os
    → by_methods os m ≡ ok (record m { db = run_operations os m.db })
unfolding by_methods run_operations
by_methods-run_operations [] m h = refl
by_methods-run_operations (o ∷ os) m (p, h) =
    rw (by_method-run_operation o m p)
      (by_methods-run_operations os (record m { db = run_operation o m.db }) h)

-- A batch of operations that have keys and tags without colons does what the single calls of `Put`
-- and `Delete` do one after the other.
pub batch-by_methods :
    (o : Operation) (os : List Operation) (m : MemStore)
    → AllPlain (o ∷ os)
    → batch (o ∷ os) m ≡ by_methods (o ∷ os) m
unfolding batch
batch-by_methods o os m h =
    rw (check_operations-accepts (o ∷ os) h, by_methods-run_operations (o ∷ os) m h)

-- What the last operation on a key leaves there.
unfoldable pub latest : Str → List Operation → Option DbEntry → Option DbEntry
latest k [] found = found
latest k (o ∷ os) found = latest k os (
    if str_eq o.key k
    then elim (o.value) [ none ↦ none | some v ↦ some (record { value = v; tags = o.tags }) ]
    else found)

lookup-run_operation :
    (o : Operation) (db : Dict DbEntry) (k : Str)
    → lookup k (run_operation o db) ≡ (
        if str_eq o.key k
        then elim (o.value) [ none ↦ none | some v ↦ some (record { value = v; tags = o.tags }) ]
        else lookup k db)
unfolding run_operation
lookup-run_operation o db k = elim (Option-cases o.value) [
  | inl gone ↦ rw gone (lookup-delete o.key k db)
  | inr (v, kept) ↦ rw kept (lookup-insert o.key k (record { value = v; tags = o.tags }) db)
]

lookup-run_operations :
    (os : List Operation) (db : Dict DbEntry) (k : Str)
    → lookup k (run_operations os db) ≡ latest k os (lookup k db)
unfolding run_operations latest
lookup-run_operations [] db k = refl
lookup-run_operations (o ∷ os) db k =
    rw (lookup-run_operations os (run_operation o db) k, lookup-run_operation o db k)

-- After a successful batch each key has the entry of the last operation on it, none where that
-- deletes, and what it had before where no operation names it.
pub lookup-batch :
    (os : List Operation) (m m' : MemStore) (k : Str)
    → batch os m ≡ ok m'
    → lookup k m'.db ≡ latest k os (lookup k m.db)
unfolding batch
lookup-batch [] m m' k h = cc
lookup-batch (o ∷ os) m m' k h =
    let (_, _, done) = then-ok (check_operations (o ∷ os)) _ h in
    let e : record m { db = run_operations (o ∷ os) m.db } ≡ m' = cc in
    subst (λ x. lookup k x.db ≡ latest k (o ∷ os) (lookup k m.db)) e
      (lookup-run_operations (o ∷ os) m.db k)
