-- ===== src/Storage/Handles.antt =====
-- Handles and names: the invariant of the provider's memory, and what opening and closing stores
-- does to the handles that are out.
use mathlib.Core.Path.{subst}
use vc_go.Prelude.{
  ℕ, ◌≡◌, ◌∙◌, refl, sym, ap, ◌≢◌, inl, inr, List, [], ◌∷◌, ◌++◌, Option, none, some, arith,
  Bool-cases, Option-cases, length, get_elem?, set, Str, str_eq, str_eq_iff, ℕ_discrete,
}
use vc_go.Prelude.Lists.{
  get_elem?-append_old, get_elem?-append_last, get_elem?-append_cases, get_elem?-set_self,
  get_elem?-set_other, get_elem?-set_cases,
}
use vc_go.Prelude.Dicts.{lookup, insert, lookup-insert, lookup-delete, IsMap}
use vc_go.Storage.Types.{MemStore, Error, store_not_found, Result, ok, err}
use vc_go.Storage.Provider.{
  Memory, new_provider, empty_store, open_named, open_store, check_tag_names, set_store_config,
  close_provider, remove_store, close_store, change_store,
}
use vc_go.Storage.Entries.{then-ok}
use vc_go.Storage.Methods.{Method, run_method, KeepsStore, run_method-KeepsStore}

-- The names of the provider lead to stores of that name, and every store is a map.
pub record IsValid (w : Memory) : Type 0 where
  pub named :
      (k : Str) (a : ℕ)
      → lookup k w.dbs ≡ some a
      → (m : MemStore) × (get_elem? w.stores a ≡ some m) × (m.name ≡ k)
  pub maps : (a : ℕ) (m : MemStore) → get_elem? w.stores a ≡ some m → IsMap m.db

-- One call by one client: of the provider, or of a store through its handle.
pub data Step (lower : Str → Str) (w w' : Memory) : Type 0 where
  opens : (name : Str) (a : ℕ) → open_store lower name w ≡ ok (a, w') → Step lower w w'
  configures :
      (name : Str) (tag_names : List Str)
      → set_store_config lower name tag_names w ≡ ok w'
      → Step lower w w'
  closes : (a : ℕ) → w' ≡ close_store a w → Step lower w w'
  closes_all : w' ≡ close_provider w → Step lower w w'
  changes :
      (a : ℕ) (method : Method) → change_store a (run_method method) w ≡ ok w' → Step lower w w'

added-IsValid :
    (k : Str) (w : Memory)
    → IsValid w
    → IsValid
        (record { stores = w.stores ++ empty_store k ∷ []; dbs = insert k (length w.stores) w.dbs })
unfolding empty_store
added-IsValid k w v = record {
  named = λ j a h. elim (Bool-cases (str_eq k j)) [
    | inl here ↦
        let inserted = rw here at (lookup-insert k j (length w.stores) w.dbs) in
        let e : length w.stores ≡ a = cc in
        subst
          (λ x.
            (m : MemStore) × (get_elem? (w.stores ++ empty_store k ∷ []) x ≡ some m) × (m.name ≡ j))
          e (empty_store k, get_elem?-append_last w.stores (empty_store k), (str_eq_iff k j).0 here)
    | inr there ↦
        let kept = rw there at (lookup-insert k j (length w.stores) w.dbs) in
        let (m, found, named) = v.named j a (sym kept ∙ h) in
        (m, get_elem?-append_old w.stores (empty_store k ∷ []) a found, named)
  ];
  maps = λ a m h. elim (get_elem?-append_cases w.stores (empty_store k) a h) [
    | inl old ↦ v.maps a m old
    | inr new ↦ subst (λ x. IsMap x.db) new tt
  ];
}

open_named-IsValid :
    (lower : Str → Str) (k : Str) (w : Memory) → IsValid w → IsValid (open_named lower k w).1
unfolding open_named
open_named-IsValid lower k w v = elim (Option-cases (lookup k w.dbs)) [
  | inl new ↦ rw (new, open_named) (added-IsValid k w v)
  | inr (a, old) ↦ rw (old, open_named) v
]

replaced-IsValid :
    (w : Memory) (a : ℕ) (m m' : MemStore)
    → IsValid w
    → get_elem? w.stores a ≡ some m
    → m'.name ≡ m.name
    → IsMap m'.db
    → IsValid (record w { stores = set w.stores a m' })
replaced-IsValid w a m m' v found same map = record {
  named = λ j b h.
      let (n, there, named) = v.named j b h in
      elim (ℕ_discrete a b) [
        | yes e ↦
            let both : m ≡ n = cc in
            subst (λ x. (y : MemStore) × (get_elem? (set w.stores a m') x ≡ some y) × (y.name ≡ j))
              e (m', get_elem?-set_self w.stores a m' found, same ∙ ap (λ x. x.name) both ∙ named)
        | no other ↦ (n, get_elem?-set_other w.stores a b m' other ∙ there, named)
      ];
  maps = λ b n h. elim (get_elem?-set_cases w.stores a b m' h) [
    | inl old ↦ v.maps b n old
    | inr (e, _) ↦ subst (λ x. IsMap x.db) e map
  ];
}

removed-IsValid : (k : Str) (w : Memory) → IsValid w → IsValid (remove_store k w)
unfolding remove_store
removed-IsValid k w v = elim (Option-cases (lookup k w.dbs)) [
  | inl missing ↦ rw (missing, remove_store) v
  | inr (a, there) ↦
      rw (there, remove_store)
        (record {
          named = λ j b h. v.named j b (ground (arith, lookup-delete k j w.dbs));
          maps = v.maps;
        })
]

pub found-ok :
    {A B : Type 0} {b : B} (found : Option A) (cause : Error) (next : A → Result B)
    → elim found [ none ↦ err cause | some a ↦ next a ] ≡ ok b
    → (a : A) × (found ≡ some a) × (next a ≡ ok b)
found-ok none cause next h = cc
found-ok (some a) cause next h = (a, refl, h)

pub open_store-open_named :
    (lower : Str → Str) (name : Str) (w w' : Memory) (a : ℕ)
    → open_store lower name w ≡ ok (a, w')
    → (name ≢ []) × (open_named lower (lower name) w ≡ (a, w'))
unfolding open_store
open_store-open_named lower [] w w' a h = cc
open_store-open_named lower (c ∷ name) w w' a h = ((λ e. cc), cc)

close_store-IsValid : (a : ℕ) (w : Memory) → IsValid w → IsValid (close_store a w)
unfolding close_store
close_store-IsValid a w v = elim (Option-cases (get_elem? w.stores a)) [
  | inl missing ↦ rw (missing, close_store) v
  | inr (m, there) ↦ rw (there, close_store) (removed-IsValid m.name w v)
]

change_store-IsValid :
    (a : ℕ) (method : MemStore → Result MemStore) (w w' : Memory)
    → KeepsStore method
    → change_store a method w ≡ ok w'
    → IsValid w
    → IsValid w'
unfolding change_store
change_store-IsValid a method w w' keeps h v =
    let (m, found, h1) = found-ok (get_elem? w.stores a) store_not_found _ h in
    let (m', changed, h2) = then-ok (method m) _ h1 in
    let (same, map) = keeps m m' changed (v.maps a m found) in
    let e : record w { stores = set w.stores a m' } ≡ w' = cc in
    subst IsValid e (replaced-IsValid w a m m' v found same map)

set_store_config-IsValid :
    (lower : Str → Str) (name : Str) (tag_names : List Str) (w w' : Memory)
    → set_store_config lower name tag_names w ≡ ok w'
    → IsValid w
    → IsValid w'
unfolding set_store_config
set_store_config-IsValid lower name tag_names w w' h v =
    let (_, _, h1) = then-ok (check_tag_names lower tag_names) _ h in
    let (a, _, h2) = found-ok (lookup (lower name) w.dbs) store_not_found _ h1 in
    let (m, found, h3) = found-ok (get_elem? w.stores a) store_not_found _ h2 in
    let e : record w { stores = set w.stores a (record m { config = tag_names }) } ≡ w' = cc in
    subst IsValid e
      (replaced-IsValid w a m (record m { config = tag_names }) v found refl (v.maps a m found))

Step-IsValid : (lower : Str → Str) (w w' : Memory) → Step lower w w' → IsValid w → IsValid w'
unfolding close_provider lookup
Step-IsValid lower w w' (opens name a h) v =
    let (_, e) = open_store-open_named lower name w w' a h in
    subst IsValid (ap (λ p. p.1) e) (open_named-IsValid lower (lower name) w v)
Step-IsValid lower w w' (configures name tag_names h) v =
    set_store_config-IsValid lower name tag_names w w' h v
Step-IsValid lower w w' (closes a e) v = subst IsValid (sym e) (close_store-IsValid a w v)
Step-IsValid lower w w' (closes_all e) v =
    subst IsValid (sym e) (record { named = λ k a h. cc; maps = v.maps })
Step-IsValid lower w w' (changes a method h) v =
    change_store-IsValid a (run_method method) w w' (run_method-KeepsStore method) h v

-- Any number of calls, in any order, by any clients.
pub data Reach (lower : Str → Str) (w : Memory) : Memory → Type 0 where
  start : Reach lower w w
  step : {u v : Memory} → Reach lower w u → Step lower u v → Reach lower w v

Reach-IsValid : (lower : Str → Str) {w w' : Memory} → Reach lower w w' → IsValid w → IsValid w'
Reach-IsValid lower start v = v
Reach-IsValid lower (step {u} {v = t} r s) v = Step-IsValid lower u t s (Reach-IsValid lower r v)

-- After any calls on a new provider, each name leads to a store of that name, and each store has one
-- entry for a key.
pub new_provider-IsValid : (lower : Str → Str) {w : Memory} → Reach lower new_provider w → IsValid w
unfolding new_provider lookup
new_provider-IsValid lower r =
    Reach-IsValid lower r (record { named = λ k a h. cc; maps = λ a m h. cc })
