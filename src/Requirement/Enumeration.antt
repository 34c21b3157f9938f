-- ===== src/Requirement/Enumeration.antt =====
-- What a run of `Next` calls finds: every choice of descriptors that satisfies the requirement.
use native.Mathlib.Nat.{add-zero, zero-add, suc-add, mod_self, mod-eq_of_lt}
use vc_go.Prelude.{
  ℕ, zero, suc, ◌+◌, ◌-◌, ◌^◌, ◌≤◌, ◌<◌, ◌≡◌, refl, sym, ap, ◌≢◌, ◌⊎◌, inl, inr, true, false, List,
  [], ◌∷◌, Option, none, some, arith, length, Str, if◌then◌else◌, dec_lt,
}
use vc_go.Requirement.Logic.{RequirementLogic}
use vc_go.Requirement.Iterator.{
  BitsetIterator, exclude_indices, exclude_descriptors, advance, finish, next,
}
use vc_go.Requirement.Masks.{chosen, chosen-eq-nil}
use vc_go.Requirement.Search.{solves, IsStop, advanced, next-IsStop}

-- The state of a live iterator stays below the number of masks.
pub record IsLive (b : BitsetIterator) : Type 0 where
  pub running : b.done ≡ false
  pub in_range : b.state < 2 ^ length b.descs

-- What the loop makes of the advanced iterator `a`: the iterator `b'` after the call and its output.
pub record IsRound (a b' : BitsetIterator) (out : List Str) : Type 0 where
  pub same_req : b'.req ≡ a.req
  pub same_descs : b'.descs ≡ a.descs
  pub choice : out ≡ chosen b'.state a.descs
  pub outcome :
      ((out ≡ []) × (b'.done ≡ true) × (b'.state ≡ 2 ^ length a.descs))
      ⊎ ((out ≢ []) × IsLive b' × (solves a.req a.descs b'.state ≡ true))
  pub from : a.state ≤ b'.state
  pub skipped : (t : ℕ) → a.state ≤ t → t < b'.state → solves a.req a.descs t ≡ false

chosen-pow_two : (descs : List Str) → chosen (2 ^ length descs) descs ≡ []
chosen-pow_two descs = (chosen-eq-nil _ descs).0 (mod_self (2 ^ length descs))

-- The only mask in range that chooses nothing is the last.
last_of_nil :
    (descs : List Str) (s : ℕ)
    → 0 < s
    → s ≤ 2 ^ length descs
    → chosen s descs ≡ []
    → s ≡ 2 ^ length descs
last_of_nil descs s p h e = elim (dec_lt s (2 ^ length descs)) [
  | yes inside ↦ absurd (omega (arith, (chosen-eq-nil s descs).1 e, mod-eq_of_lt inside))
  | no outside ↦ omega arith
]

module _ (a : BitsetIterator) (s' : ℕ) where
  IsRound-finish :
      (l : List Str)
      → chosen s' a.descs ≡ l
      → a.done ≡ false
      → 0 < a.state
      → IsStop a.req a.descs a.state (2 ^ length a.descs) s'
      → IsRound a (finish a (s', l)).0 (finish a (s', l)).1
  unfolding finish
  IsRound-finish [] e live p stop = record {
    same_req = refl;
    same_descs = refl;
    choice = sym e;
    outcome = inl (refl, refl, last_of_nil a.descs s' (omega (arith, stop.from)) stop.until e);
    from = stop.from;
    skipped = λ t h k. (stop.skipped t h k).1;
  }
  IsRound-finish (d ∷ ds) e live p stop = record {
    same_req = refl;
    same_descs = refl;
    choice = sym e;
    outcome = inr (
      λ none_chosen. cc,
      record { running = live; in_range = inside },
      ground (arith, stop.valid),
    );
    from = stop.from;
    skipped = λ t h k. (stop.skipped t h k).1;
  }
    where
      not_last : s' ≢ 2 ^ length a.descs
      not_last same = cc (e, chosen-pow_two a.descs, ap (λ t. chosen t a.descs) same)

      inside : s' < 2 ^ length a.descs
      inside = omega (arith, stop.until, not_last)

advance-done : (is : List ℕ) (b : BitsetIterator) → b.done ≡ false → (advance is b).done ≡ false
unfolding advance exclude_descriptors
advance-done [] b h = h
advance-done (i ∷ is) b h = h

-- A call of `Next` on a live iterator returns the choice of the first mask, from the advanced state
-- on, that satisfies the requirement; if there is none it returns nil and the iterator is done.
pub next-IsRound :
    (exclude_ids : List Str) (b : BitsetIterator)
    → b.done ≡ false
    → 0 < (advanced exclude_ids b).state
    → (advanced exclude_ids b).state ≤ 2 ^ length (advanced exclude_ids b).descs
    → (b' : BitsetIterator) × (out : List Str) × (next exclude_ids b ≡ some (b', out))
      × IsRound (advanced exclude_ids b) b' out
next-IsRound exclude_ids b live p h =
    let a = advanced exclude_ids b in
    let stop =
      next-IsStop exclude_ids b (2 ^ length a.descs) live (chosen-pow_two a.descs) h
        (omega arith) in
    let (s', found, stopped) = stop in
    (
      _,
      _,
      found,
      IsRound-finish a s' (chosen s' a.descs) refl
          (advance-done (exclude_indices exclude_ids b.descs []) b live) p stopped,
    )

-- The solutions among the `k` masks from `s` on, in order.
abbrev pub solutions : RequirementLogic → List Str → ℕ → ℕ → List (List Str)
solutions req descs s zero = []
solutions req descs s (suc k) =
    let rest = solutions req descs (s + 1) k in
    if solves req descs s then chosen s descs ∷ rest else rest

-- The outputs of repeated calls of `Next(nil)`, until it returns nil.
unfoldable pub collect : ℕ → BitsetIterator → Option (List (List Str))
collect zero b = none
collect (suc fuel) b = elim (next [] b) [
  | none ↦ none
  | some (b', []) ↦ some []
  | some (b', d ∷ ds) ↦
      let rest = collect fuel b' in elim rest [ none ↦ none | some l ↦ some ((d ∷ ds) ∷ l) ]
]

solutions-skip :
    (req : RequirementLogic) (descs : List Str) (s j k : ℕ)
    → ((t : ℕ) → s ≤ t → t < s + j → solves req descs t ≡ false)
    → solutions req descs s (j + k) ≡ solutions req descs (s + j) k
solutions-skip req descs s zero k h = rw (add-zero s, zero-add k)
solutions-skip req descs s (suc j) k h =
    rw
      (
        suc-add j k,
        h s (omega arith) (omega arith),
        solutions-skip req descs (s + 1) j k (λ t p q. h t (omega arith) (omega arith)),
      )
      (ap (λ t. solutions req descs t k) (omega arith))

collect_end :
    (fuel : ℕ) (b b' : BitsetIterator) (out : List Str)
    → next [] b ≡ some (b', out)
    → out ≡ []
    → collect (suc fuel) b ≡ some []
unfolding collect
collect_end fuel b b' out e nothing = ground arith

collect_more :
    (fuel : ℕ) (b b' : BitsetIterator) (out : List Str) (l : List (List Str))
    → next [] b ≡ some (b', out)
    → out ≢ []
    → collect fuel b' ≡ some l
    → collect (suc fuel) b ≡ some (out ∷ l)
unfolding collect
collect_more fuel b b' out l e more rest = ground arith

-- The solutions from `s` up to, but not including, `e`.
abbrev pub solutions_between : RequirementLogic → List Str → ℕ → ℕ → List (List Str)
solutions_between req descs s e = solutions req descs s (e - s)

solutions-none :
    (req : RequirementLogic) (descs : List Str) (s e : ℕ)
    → s ≤ e
    → ((t : ℕ) → s ≤ t → t < e → solves req descs t ≡ false)
    → solutions_between req descs s e ≡ []
solutions-none req descs s e p h =
    let split : e - s ≡ (e - s) + 0 = omega arith in
    rw split (solutions-skip req descs s (e - s) 0 (λ t p q. h t p (omega arith)))

solutions-next :
    (req : RequirementLogic) (descs : List Str) (s t e : ℕ)
    → s ≤ t
    → t < e
    → ((u : ℕ) → s ≤ u → u < t → solves req descs u ≡ false)
    → solves req descs t ≡ true
    → solutions_between req descs s e ≡ chosen t descs ∷ solutions_between req descs (t + 1) e
solutions-next req descs s t e p q h good =
    let split : e - s ≡ (t - s) + suc (e - (t + 1)) = omega arith in
    let here : s + (t - s) ≡ t = omega arith in
    rw (
      split,
      solutions-skip req descs s (t - s) (suc (e - (t + 1))) (λ u i j. h u i (omega arith)),
      here,
      good,
    )

-- What is left to enumerate from a live iterator.
abbrev pub remaining : BitsetIterator → List (List Str)
remaining b = solutions_between b.req b.descs (b.state + 1) (2 ^ length b.descs)

remaining-IsRound_done :
    (b b' : BitsetIterator) (out : List Str)
    → IsRound (advanced [] b) b' out
    → b.state < 2 ^ length b.descs
    → b'.state ≡ 2 ^ length b.descs
    → remaining b ≡ []
unfolding advance exclude_indices
remaining-IsRound_done b b' out r h last =
    solutions-none b.req b.descs (b.state + 1) (2 ^ length b.descs) (omega arith)
      λ t p q. r.skipped t p (omega arith)

remaining-IsRound_found :
    (b b' : BitsetIterator) (out : List Str)
    → IsRound (advanced [] b) b' out
    → IsLive b'
    → solves b.req b.descs b'.state ≡ true
    → remaining b ≡ out ∷ remaining b'
unfolding advance exclude_indices
remaining-IsRound_found b b' out r live good =
    rw (r.same_req, r.same_descs, r.choice)
      (solutions-next b.req b.descs (b.state + 1) b'.state (2 ^ length b.descs) r.from
        (rw r.same_descs at live.in_range) r.skipped good)

-- Repeated calls of `Next` return every choice of descriptors that satisfies the requirement, each
-- once, in the order of the masks, and then nil; they end within the fuel.
pub collect-remaining :
    (fuel : ℕ) (b : BitsetIterator)
    → IsLive b
    → 2 ^ length b.descs < b.state + fuel
    → collect fuel b ≡ some (remaining b)
unfolding advance exclude_indices
collect-remaining zero b live h = absurd (omega (arith, live.in_range))
collect-remaining (suc fuel) b live h =
    let (b', out, called, round) =
      next-IsRound [] b live.running (omega arith) (omega (arith, live.in_range)) in
    elim round.outcome [
      | inl (nothing, _, last) ↦
          rw (remaining-IsRound_done b b' out round live.in_range last)
            (collect_end fuel b b' out called nothing)
      | inr (more, live', good) ↦ rw (remaining-IsRound_found b b' out round live' good) (
          collect_more fuel b b' out (remaining b') called more
            (collect-remaining fuel b' live' (rw round.same_descs (omega (arith, h, round.from)))))
    ]
