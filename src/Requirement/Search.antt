-- ===== src/Requirement/Search.antt =====
-- The loop of `incrementUntilValid`: it ends, and stops at the first mask whose choice of descriptors
-- satisfies the requirement.
use native.Mathlib.Nat.{div-add-mod, mul-mod_left, mod-lt}
use vc_go.Prelude.{
  ℕ, zero, suc, ◌+◌, ◌*◌, ◌/◌, ◌^◌, ◌≤◌, ◌<◌, ◌≡◌, refl, ◌≢◌, ◌⊎◌, inl, inr, Bool, true, false,
  List, [], ◌∷◌, some, arith, Bool-cases, length, Str, dec_lt,
}
use vc_go.Requirement.Sets.{init_from_slice}
use vc_go.Requirement.Logic.{RequirementLogic, is_satisfied_by}
use vc_go.Requirement.Iterator.{
  BitsetIterator, increment_until_valid, exclude_indices, advance, finish, next,
}
use vc_go.Requirement.Masks.{pow_two-pos, chosen, current-chosen, chosen-eq-nil}

-- The choice of mask `t` satisfies the requirement.
abbrev pub solves : RequirementLogic → List Str → ℕ → Bool
solves req descs t = is_satisfied_by req (init_from_slice (chosen t descs))

-- Where the loop from `s` stops: at `s'`, which is no later than `e`, having skipped no solution.
pub record IsStop (req : RequirementLogic) (descs : List Str) (s e s' : ℕ) : Type 0 where
  pub from : s ≤ s'
  pub until : s' ≤ e
  pub valid : (chosen s' descs ≡ []) ⊎ (solves req descs s' ≡ true)
  pub skipped : (t : ℕ) → s ≤ t → t < s' → (chosen t descs ≢ []) × (solves req descs t ≡ false)

pub List-cases : (l : List Str) → (l ≡ []) ⊎ ((d : Str) × (ds : List Str) × (l ≡ d ∷ ds))
List-cases [] = inl refl
List-cases (d ∷ ds) = inr (d, ds, refl)

module _ (req : RequirementLogic) (descs : List Str) where
  IsStop-self :
      (s e : ℕ)
      → s ≤ e
      → (chosen s descs ≡ []) ⊎ (solves req descs s ≡ true)
      → IsStop req descs s e s
  IsStop-self s e h v = record {
    from = omega arith;
    until = h;
    valid = v;
    skipped = λ t p q. absurd (omega arith);
  }

  IsStop-later :
      (s e s' : ℕ)
      → chosen s descs ≢ []
      → solves req descs s ≡ false
      → IsStop req descs (s + 1) e s'
      → IsStop req descs s e s'
  IsStop-later s e s' some_chosen fails stop = record {
    from = omega arith;
    until = stop.until;
    valid = stop.valid;
    skipped = λ t p q. elim (dec_lt s t) [
      | yes later ↦ stop.skipped t (omega arith) q
      | no here ↦ let same : t ≡ s = omega arith in rw same (some_chosen, fails)
    ];
  }

  increment_none :
      (fuel s : ℕ)
      → chosen s descs ≡ []
      → increment_until_valid (suc fuel) req descs s ≡ some (s, chosen s descs)
  unfolding increment_until_valid
  increment_none fuel s e = ground (arith, current-chosen s descs)

  increment_found :
      (fuel s : ℕ) {d : Str} {ds : List Str}
      → chosen s descs ≡ d ∷ ds
      → solves req descs s ≡ true
      → increment_until_valid (suc fuel) req descs s ≡ some (s, chosen s descs)
  unfolding increment_until_valid
  increment_found fuel s e good = ground (arith, current-chosen s descs)

  increment_step :
      (fuel s : ℕ) {d : Str} {ds : List Str}
      → chosen s descs ≡ d ∷ ds
      → solves req descs s ≡ false
      → increment_until_valid (suc fuel) req descs s ≡ increment_until_valid fuel req descs (s + 1)
  unfolding increment_until_valid
  increment_step fuel s e fails = ground (arith, current-chosen s descs)

  -- The loop stops before a mask that chooses nothing, if the fuel reaches that far.
  pub increment_until_valid-IsStop :
      (fuel s e : ℕ)
      → chosen e descs ≡ []
      → s ≤ e
      → e < s + fuel
      → (s' : ℕ) × (increment_until_valid fuel req descs s ≡ some (s', chosen s' descs))
        × IsStop req descs s e s'
  increment_until_valid-IsStop zero s e nothing h k = absurd (omega arith)
  increment_until_valid-IsStop (suc fuel) s e nothing h k = elim (List-cases (chosen s descs)) [
    | inl empty ↦ (s, increment_none fuel s empty, IsStop-self s e h (inl empty))
    | inr (d, ds, found) ↦ elim (Bool-cases (solves req descs s)) [
      | inl good ↦ (s, increment_found fuel s found good, IsStop-self s e h (inr good))
      | inr bad ↦
          let some_chosen : chosen s descs ≢ [] = λ empty. cc in
          let before : s ≢ e = λ same. some_chosen (rw same nothing) in
          let later =
            increment_until_valid-IsStop fuel (s + 1) e nothing (omega arith) (omega arith) in
          (
            later.0,
            rw (increment_step fuel s found bad) later.1,
            IsStop-later s e later.0 some_chosen bad later.2,
          )
    ]
  ]

-- The first mask from `s` on that chooses nothing, at the latest.
abbrev round_end : List Str → ℕ → ℕ
round_end descs s = (s / 2 ^ length descs + 1) * 2 ^ length descs

round_end_bounds :
    (descs : List Str) (s : ℕ)
    → (chosen (round_end descs s) descs ≡ [])
      × (s ≤ round_end descs s)
      × (round_end descs s < s + (2 ^ length descs + 1))
round_end_bounds descs s = (
  (chosen-eq-nil _ descs).0 (mul-mod_left (s / 2 ^ length descs + 1) (2 ^ length descs)),
  omega (arith, div-add-mod s (2 ^ length descs), mod-lt s (pow_two-pos (length descs))),
  omega (arith, div-add-mod s (2 ^ length descs), mod-lt s (pow_two-pos (length descs))),
)

-- The iterator as `next` leaves it before its loop.
abbrev pub advanced : List Str → BitsetIterator → BitsetIterator
advanced exclude_ids b = advance (exclude_indices exclude_ids b.descs []) b

next_live :
    (exclude_ids : List Str) (b : BitsetIterator) (state : ℕ) (found : List Str)
    → b.done ≡ false
    → increment_until_valid
        (2 ^ length (advanced exclude_ids b).descs + 1)
        (advanced exclude_ids b).req
        (advanced exclude_ids b).descs
        (advanced exclude_ids b).state
      ≡ some (state, found)
    → next exclude_ids b ≡ some (finish (advanced exclude_ids b) (state, found))
unfolding next
next_live exclude_ids b state found live e = ground arith

-- A live call of `Next` stops at a mask of the advanced iterator, and returns its choice.
pub next-IsStop :
    (exclude_ids : List Str) (b : BitsetIterator) (e : ℕ)
    → b.done ≡ false
    → chosen e (advanced exclude_ids b).descs ≡ []
    → (advanced exclude_ids b).state ≤ e
    → e < (advanced exclude_ids b).state + (2 ^ length (advanced exclude_ids b).descs + 1)
    → (s' : ℕ) × (next exclude_ids b
        ≡ some (finish (advanced exclude_ids b) (s', chosen s' (advanced exclude_ids b).descs)))
      × IsStop
          (advanced exclude_ids b).req
          (advanced exclude_ids b).descs
          (advanced exclude_ids b).state
          e
          s'
next-IsStop exclude_ids b e live nothing h k =
    let b' = advanced exclude_ids b in
    let stop =
      increment_until_valid-IsStop b'.req b'.descs (2 ^ length b'.descs + 1) b'.state e nothing h
        k in
    (stop.0, next_live exclude_ids b _ _ live stop.1, stop.2)

next_done :
    (exclude_ids : List Str) (b : BitsetIterator)
    → b.done ≡ true
    → next exclude_ids b ≡ some (b, [])
unfolding next
next_done exclude_ids b e = ground arith

-- `Next` always returns: its loop ends within the fuel, whatever is excluded.
pub next_total :
    (exclude_ids : List Str) (b : BitsetIterator)
    → (r : BitsetIterator × List Str) × (next exclude_ids b ≡ some r)
next_total exclude_ids b = elim (Bool-cases b.done) [
  | inl done ↦ ((b, []), next_done exclude_ids b done)
  | inr live ↦
      let b' = advanced exclude_ids b in
      let bounds = round_end_bounds b'.descs b'.state in
      let stop =
        next-IsStop exclude_ids b (round_end b'.descs b'.state) live bounds.0 bounds.1 bounds.2 in
      (finish b' (stop.0, chosen stop.0 b'.descs), stop.1)
]
