-- ===== src/Storage/Iteration.antt =====
-- What a client reads that calls `Next` until it reports the end.
use mathlib.Core.Path.{subst}
use vc_go.Prelude.{
  ℕ, suc, ◌+◌, ◌-◌, ◌≤◌, ◌||◌, zero, ◌<◌, ◌≡◌, refl, ap, true, false, List, [], ◌∷◌, map, Option,
  none, some, arith, if◌then◌else◌, length, get_elem?, ◌==◌, Str,
}
use vc_go.Prelude.Lists.{length-map, drop}
use vc_go.Prelude.Dicts.{Dict, keys}
use vc_go.Storage.Types.{iterator_exhausted, Tag, DbEntry, Result, ok, err, ◌>>=◌}
use vc_go.Storage.Cursor.{
  MemIterator, new_iterator, move_next, current_key_of, current_value, current_tags, total_items,
  zero_entry,
}

-- What a client reads of the current entry.
pub record Reading : Type 0 where
  pub key : Str
  pub value : Str
  pub tags : List Tag

pub read_current : MemIterator → Result Reading
read_current it = current_key_of it >>= λ k.
    current_value it >>= λ v. current_tags it >>= λ t. ok (record { key = k; value = v; tags = t })

-- A client that calls `Next` and reads, until there is no more; none for a panic, for a read that
-- fails, or when the fuel does not reach the end.
pub read_all : ℕ → MemIterator → Option (List Reading × MemIterator)
read_all zero it = none
read_all (suc n) it = elim (move_next it) [
  | none ↦ none
  | some (more, moved) ↦
      let rest = read_all n moved in
      if more
      then elim (read_current moved) [
        | err cause ↦ none
        | ok r ↦ elim rest [ none ↦ none | some (rs, end) ↦ some (r ∷ rs, end) ]
      ]
      else some ([], moved)
]

pub reading_of : Str × DbEntry → Reading
reading_of (k, e) = record { key = k; value = e.value; tags = e.tags }

at_index : Dict DbEntry → ℕ → Str → DbEntry → MemIterator
at_index found i k e = record {
  current_index = i;
  current_key = k;
  current_db_entry = e;
  keys = keys found;
  db_entries = map (λ x. x.1) found;
}

get_elem?-drop :
    {A B : Type 0} (f : A → B) (xs rest : List A) (i : ℕ) (x : A)
    → drop i xs ≡ x ∷ rest
    → get_elem? (map f xs) i ≡ some (f x)
get_elem?-drop f [] rest zero x h = cc
get_elem?-drop f [] rest (suc i) x h = cc
get_elem?-drop f (y ∷ ys) rest zero x h = cc
get_elem?-drop f (y ∷ ys) rest (suc i) x h = get_elem?-drop f ys rest i x h

drop-suc :
    {A : Type 0} (xs rest : List A) (i : ℕ) (x : A) → drop i xs ≡ x ∷ rest → drop (suc i) xs ≡ rest
drop-suc [] rest zero x h = cc
drop-suc [] rest (suc i) x h = cc
drop-suc (y ∷ ys) rest zero x h = cc
drop-suc (y ∷ ys) rest (suc i) x h = drop-suc ys rest i x h

length-drop : {A : Type 0} (xs : List A) (i : ℕ) → length (drop i xs) ≡ length xs - i
length-drop xs zero = omega arith
length-drop [] (suc i) = omega arith
length-drop (x ∷ xs) (suc i) = omega (arith, length-drop xs i)

move_next-more :
    (found rest : Dict DbEntry) (i : ℕ) (k : Str) (e : DbEntry) (x : Str × DbEntry)
    → drop i found ≡ x ∷ rest
    → move_next (at_index found i k e) ≡ some (true, at_index found (i + 1) x.0 x.1)
unfolding move_next at_index
move_next-more found rest i k e x h =
    rw
      (
        unfinished,
        get_elem?-drop (λ y. y.0) found rest i x h,
        get_elem?-drop (λ y. y.1) found rest i x h,
      )
      refl
  where
    unfinished : (length (map (λ y. y.1) found) == i || length (map (λ y. y.1) found) == 0) ≡ false
    unfinished = ground (arith, length-map found (λ y. y.1), length-drop found i, ap length h)

ended : Dict DbEntry → ℕ → Str → DbEntry → MemIterator
ended found i k e = record (at_index found i k e) { db_entries = [] }

move_next-end :
    (found : Dict DbEntry) (i : ℕ) (k : Str) (e : DbEntry)
    → i ≡ length found
    → move_next (at_index found i k e) ≡ some (false, ended found i k e)
unfolding move_next at_index ended
move_next-end found i k e h = rw finished refl
  where
    finished : (length (map (λ y. y.1) found) == i || length (map (λ y. y.1) found) == 0) ≡ true
    finished = ground (arith, length-map found (λ y. y.1))

read_current-at_index :
    (found : Dict DbEntry) (i : ℕ) (k : Str) (e : DbEntry)
    → 0 < length found
    → read_current (at_index found i k e) ≡ ok (reading_of (k, e))
unfolding read_current reading_of at_index current_key_of current_value current_tags
read_current-at_index found i k e h = rw present refl
  where
    present : (length (map (λ y. y.1) found) == 0) ≡ false
    present = ground (arith, length-map found (λ y. y.1))

-- What an iterator over the entries is at the end.
pub IsEnd : Dict DbEntry → MemIterator → Type 0
IsEnd found end =
    (move_next end ≡ some (false, end))
    × (read_current end ≡ err iterator_exhausted)
    × (total_items end ≡ length found)

ended-IsEnd :
    (found : Dict DbEntry) (i : ℕ) (k : Str) (e : DbEntry) → IsEnd found (ended found i k e)
unfolding IsEnd ended at_index move_next read_current current_key_of current_value current_tags
    total_items
ended-IsEnd found i k e = (ground arith, ground arith, length-map found (λ y. y.0))

read_all-more :
    (n : ℕ) (it moved end : MemIterator) (r : Reading) (rs : List Reading)
    → move_next it ≡ some (true, moved)
    → read_current moved ≡ ok r
    → read_all n moved ≡ some (rs, end)
    → read_all (suc n) it ≡ some (r ∷ rs, end)
unfolding read_all
read_all-more n it moved end r rs next current rest = rw (next, current, rest, read_all) refl

read_all-rest :
    (found rest : Dict DbEntry) (i : ℕ) (k : Str) (e : DbEntry)
    → i ≤ length found
    → drop i found ≡ rest
    → (end : MemIterator) × (read_all (suc (length rest)) (at_index found i k e)
        ≡ some (map reading_of rest, end))
      × IsEnd found end
unfolding read_all
read_all-rest found [] i k e le h = (
  ended found i k e,
  rw (move_next-end found i k e (omega (arith, length-drop found i, ap length h)), read_all) refl,
  ended-IsEnd found i k e,
)
read_all-rest found (x ∷ rest) i k e le h =
    let left = ap length h in
    let next_index : suc i ≡ i + 1 = omega arith in
    let further : drop (i + 1) found ≡ rest =
      subst (λ j. drop j found ≡ rest) next_index (drop-suc found rest i x h) in
    let (end, read, last) =
      read_all-rest found rest (i + 1) x.0 x.1 (omega (arith, length-drop found i)) further in
    (
      end,
      read_all-more (suc (length rest)) (at_index found i k e) (at_index found (i + 1) x.0 x.1) end
          (reading_of x) (map reading_of rest) (move_next-more found rest i k e x h)
          (read_current-at_index found (i + 1) x.0 x.1 (omega (arith, length-drop found i))) read,
      last,
    )

-- A client that calls `Next` until it reports the end reads each entry that `Query` returned once and
-- in order, within one call more than there are entries; no call panics, and from then on `Next`
-- reports the end again, reading fails, and `TotalItems` is still the number of the entries.
pub read_all-new_iterator :
    (found : Dict DbEntry)
    → (end : MemIterator) × (read_all (suc (length found)) (new_iterator found)
        ≡ some (map reading_of found, end))
      × IsEnd found end
unfolding new_iterator at_index
read_all-new_iterator found = read_all-rest found found 0 [] zero_entry (omega arith) refl
