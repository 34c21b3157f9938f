-- ===== src/Storage/Closing.antt =====
-- What opening a name twice gives, and what is left of a store that is closed.
use mathlib.Core.Path.{subst}
use vc_go.Prelude.{
  ℕ, ◌≡◌, ◌∙◌, refl, sym, ap, ◌≢◌, inl, inr, [], ◌∷◌, ◌++◌, none, some, arith, Option-cases, length,
  get_elem?, Str, str_eq_self,
}
use vc_go.Prelude.Lists.{get_elem?-append_last, get_elem?-append_old}
use vc_go.Prelude.Dicts.{lookup, insert, delete, lookup-insert, lookup-delete}
use vc_go.Storage.Types.{MemStore, ok}
use vc_go.Storage.Provider.{Memory, empty_store, open_named, open_store, remove_store, close_store}
use vc_go.Storage.Handles.{open_store-open_named}

module _ (lower : Str → Str) (k : Str) (w : Memory) where
  open_named_old : {a : ℕ} → lookup k w.dbs ≡ some a → open_named lower k w ≡ (a, w)
  unfolding open_named
  open_named_old old = ground arith

  open_named_new :
      lookup k w.dbs ≡ none
      → open_named lower k w ≡ (
        length w.stores,
        record { stores = w.stores ++ empty_store k ∷ []; dbs = insert k (length w.stores) w.dbs },
      )
  unfolding open_named
  open_named_new new = ground arith

  lookup-open_named : lookup k (open_named lower k w).1.dbs ≡ some (open_named lower k w).0
  lookup-open_named = elim (Option-cases (lookup k w.dbs)) [
    | inl new ↦ rw (open_named_new new, lookup-insert k k (length w.stores) w.dbs, str_eq_self k)
    | inr (a, old) ↦ rw (open_named_old old) old
  ]

-- Opening a store again, under any spelling of its name, returns the handle that the first call
-- returned and changes nothing.
pub open_store-open_store :
    (lower : Str → Str) (first second : Str) (w w1 w2 : Memory) (a b : ℕ)
    → lower first ≡ lower second
    → open_store lower first w ≡ ok (a, w1)
    → open_store lower second w1 ≡ ok (b, w2)
    → (b ≡ a) × (w2 ≡ w1)
open_store-open_store lower first second w w1 w2 a b same h1 h2 =
    let (_, e1) = open_store-open_named lower first w w1 a h1 in
    let (_, e2) = open_store-open_named lower second w1 w2 b h2 in
    let there : lookup (lower first) w1.dbs ≡ some a =
      subst (λ p. lookup (lower first) p.1.dbs ≡ some p.0) e1
        (lookup-open_named lower (lower first) w) in
    let again =
      open_named_old lower (lower second) w1 (subst (λ n. lookup n w1.dbs ≡ some a) same there) in
    (ap (λ p. p.0) (sym e2 ∙ again), ap (λ p. p.1) (sym e2 ∙ again))

open_store-named :
    (lower : Str → Str) (name : Str) (w : Memory)
    → name ≢ []
    → open_store lower name w ≡ ok (open_named lower (lower name) w)
unfolding open_store
open_store-named lower [] w h = absurd (h refl)
open_store-named lower (c ∷ name) w h = refl

-- The store at `a` is the one that its name leads to.
pub record IsOpen (a : ℕ) (m : MemStore) (w : Memory) : Type 0 where
  pub found : get_elem? w.stores a ≡ some m
  pub registered : lookup m.name w.dbs ≡ some a

close_store-delete :
    (a : ℕ) (m : MemStore) (w : Memory) (b : ℕ)
    → get_elem? w.stores a ≡ some m
    → lookup m.name w.dbs ≡ some b
    → close_store a w ≡ record w { dbs = delete m.name w.dbs }
unfolding close_store remove_store
close_store-delete a m w b found registered = ground arith

module _ (a : ℕ) (m : MemStore) (w : Memory) where
  module _ (lower : Str → Str) (name : Str) (named : name ≢ []) (same : lower name ≡ m.name)
      (o : IsOpen a m w) where
    abbrev closed : Memory
    closed = record w { dbs = delete m.name w.dbs }

    abbrev reopened : Memory
    reopened = record {
      stores = w.stores ++ empty_store m.name ∷ [];
      dbs = insert m.name (length w.stores) (delete m.name w.dbs);
    }

    open_closed : open_store lower name (close_store a w) ≡ ok (length w.stores, reopened)
    open_closed =
        rw
          (
            close_store-delete a m w a o.found o.registered,
            open_store-named lower name closed named,
            same,
          )
          (ap ok (open_named_new lower m.name closed missing))
      where
        missing : lookup m.name (delete m.name w.dbs) ≡ none
        missing = rw (lookup-delete m.name m.name w.dbs, str_eq_self m.name)

    reopened-kept : get_elem? reopened.stores a ≡ some m
    reopened-kept = get_elem?-append_old w.stores (empty_store m.name ∷ []) a o.found

    -- After an open store is closed, opening its name gives a new store without entries, while the
    -- old handle still leads to the store with everything in it.
    pub open_store-close_store :
        (w' : Memory) × (open_store lower name (close_store a w) ≡ ok (length w.stores, w'))
        × (get_elem? w'.stores (length w.stores) ≡ some (empty_store m.name))
        × (get_elem? w'.stores a ≡ some m)
    open_store-close_store =
        (reopened, open_closed, get_elem?-append_last w.stores (empty_store m.name), reopened-kept)

    -- Closing the old handle once more takes the new store's name off the provider.
    pub close_store_stale :
        (w' : Memory)
        → open_store lower name (close_store a w) ≡ ok (length w.stores, w')
        → lookup m.name (close_store a w').dbs ≡ none
    close_store_stale w' h =
        let done = sym h ∙ open_closed in
        let e : reopened ≡ w' = cc in
        subst (λ x. lookup m.name (close_store a x).dbs ≡ none) e forgotten
      where
        again : lookup m.name reopened.dbs ≡ some (length w.stores)
        again = rw (
          lookup-insert m.name m.name (length w.stores) (delete m.name w.dbs),
          str_eq_self m.name,
        )

        forgotten : lookup m.name (close_store a reopened).dbs ≡ none
        forgotten = rw (
          close_store-delete a m reopened (length w.stores) reopened-kept again,
          lookup-delete m.name m.name reopened.dbs,
          str_eq_self m.name,
        )
