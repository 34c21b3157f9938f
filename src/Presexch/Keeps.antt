-- ===== src/Presexch/Keeps.antt =====
-- What one round of the outer loop of `applyRequirement` hands to the next.
use vc_go.Prelude.{
  ◌^◌, ◌≡◌, ◌∙◌, sym, ap, ◌≢◌, ◌⊎◌, inl, inr, true, List, [], ◌∷◌, arith, length, Str, dec_lt,
  ℕ_discrete,
}
use vc_go.Prelude.Dicts.{Dict, lookup}
use vc_go.Requirement.Sets.{has, init_from_slice}
use vc_go.Requirement.Logic.{RequirementLogic, is_satisfied_by}
use vc_go.Requirement.Iterator.{BitsetIterator}
use vc_go.Requirement.Masks.{chosen}
use vc_go.Requirement.Enumeration.{IsLive, IsRound}
use vc_go.Requirement.Positions.{NoDup}
use vc_go.Requirement.Ahead.{AheadFrom, Ahead}
use vc_go.Presexch.Requirements.{InputDescriptor}
use vc_go.Presexch.Apply.{DescriptorMatch, Progress}
use vc_go.Presexch.History.{Unfillable, IsSound}
use vc_go.Presexch.Ends.{AllKnown, IsResult}
use vc_go.Presexch.Solution.{IsSolution}
use vc_go.Presexch.Round.{NoneRefused, InLoop, unfilled}

module _ {E D C F : Type 0} (evaluate : F → InputDescriptor D → E ⊎ (DescriptorMatch C × F))
    (descs : Dict (InputDescriptor D)) (framed : F) (req : RequirementLogic) where
  pub all_matched :
      (log : Dict (DescriptorMatch C)) (sol : List Str) (p : Progress F C) (out : Dict (List C))
      → IsSound evaluate descs framed log p
      → sol ≢ []
      → is_satisfied_by req (init_from_slice sol) ≡ true
      → IsResult evaluate descs framed sol p [] out
      → IsSolution evaluate descs framed log req out sol
  unfolding lookup
  all_matched log sol p out sound more good r = record {
    nonempty = more;
    satisfies = good;
    filled = λ x h. let (m, found, stored) = r.inside x h in (m, sound.matched x m found, stored);
    only = λ x h. r.outside x h;
  }

  -- After a failed pass the filled choices that were ahead are still ahead.
  pub keeps_Ahead :
      (log : Dict (DescriptorMatch C)) (a b' : BitsetIterator) (out : List Str) (id : Str)
      (l : List Str)
      → IsRound a b' out
      → a.req ≡ req
      → has out id ≡ true
      → Unfillable log id
      → AheadFrom a l
      → is_satisfied_by req (init_from_slice l) ≡ true
      → NoneRefused log l
      → Ahead b' l
  keeps_Ahead log a b' out id l round same listed u (t, from, bound, choice) good filled =
      elim (dec_lt t b'.state) [
        | yes before ↦ absurd (ground (arith, round.skipped t from before))
        | no after ↦ elim (ℕ_discrete t b'.state) [
          | yes here ↦
              let e : l ≡ out = choice ∙ ap (λ n. chosen n a.descs) here ∙ sym round.choice in
              absurd (ground (arith, unfilled log id l u filled))
          | no later ↦ (t, omega arith, rw round.same_descs bound, rw round.same_descs choice)
        ]
      ]

  pub none_ahead :
      (a b' : BitsetIterator) (out : List Str) (l : List Str)
      → IsRound a b' out
      → a.req ≡ req
      → b'.state ≡ 2 ^ length a.descs
      → AheadFrom a l
      → is_satisfied_by req (init_from_slice l) ≡ true
      → ⊥
  none_ahead a b' out l round same last (t, from, bound, choice) good =
      ground (arith, round.skipped t from (rw last bound))

  pub InLoop-next :
      (log : Dict (DescriptorMatch C)) (a b' : BitsetIterator) (out : List Str) (q : Progress F C)
      (exclude : List Str) (id : Str)
      → IsRound a b' out
      → IsLive b'
      → NoDup a.descs
      → AllKnown evaluate descs framed a.descs
      → IsSound evaluate descs framed log q
      → has out id ≡ true
      → Unfillable log id
      → (exclude ≡ []) ⊎ (exclude ≡ id ∷ [])
      → InLoop evaluate descs framed log b' q exclude
  InLoop-next log a b' out q exclude id round live nodup known sound listed u ex = record {
    live = live;
    nodup = rw round.same_descs nodup;
    known = rw round.same_descs known;
    sound = sound;
    excludes = elim ex [
      | inl nothing ↦ inl nothing
      | inr one ↦ inr (id, one, rw (round.same_descs, ← round.choice) listed, u)
    ];
  }
