-- ===== src/Presexch/Solution.antt =====
-- The outer loop of `applyRequirement`: total, sound and complete.
use vc_go.Prelude.{ℕ, suc, ◌≡◌, ◌≢◌, ◌⊎◌, true, false, List, [], none, some, arith, Str}
use vc_go.Prelude.Dicts.{Dict, lookup}
use vc_go.Requirement.Sets.{has, init_from_slice}
use vc_go.Requirement.Logic.{RequirementLogic, is_satisfied_by}
use vc_go.Requirement.Iterator.{BitsetIterator, next}
use vc_go.Requirement.Ahead.{Ahead}
use vc_go.Presexch.Requirements.{InputDescriptor}
use vc_go.Presexch.Apply.{
  Outcome, ok, failed, no_credentials, panic, out_of_fuel, ◌>>=◌, DescriptorMatch, Progress, Pass,
  scan, collect_result, solve,
}
use vc_go.Presexch.History.{Run, Fills, Grows}
use vc_go.Presexch.Ends.{FilterFails}
use vc_go.Presexch.Round.{NoneRefused, NoneRefused-before}

module _ {E D C F : Type 0} (evaluate : F → InputDescriptor D → E ⊎ (DescriptorMatch C × F))
    (descs : Dict (InputDescriptor D)) (framed : F) where
  -- The result is a choice of descriptors that satisfies the requirement, each with the credentials that
  -- its evaluation has found.
  pub record IsSolution (log : Dict (DescriptorMatch C)) (req : RequirementLogic)
      (out : Dict (List C)) (sol : List Str) : Type 0 where
    pub nonempty : sol ≢ []
    pub satisfies : is_satisfied_by req (init_from_slice sol) ≡ true
    pub filled :
        (x : Str)
        → has sol x ≡ true
        → (m : DescriptorMatch C) × Fills log x m × (lookup x out ≡ some m.creds)
    pub only : (x : Str) → has sol x ≡ false → lookup x out ≡ none

  -- What each way to end means, for a search that has the history `log` behind it and the choices
  -- ahead of `b` before it.
  abbrev pub Solved :
      Dict (DescriptorMatch C)
      → RequirementLogic
      → BitsetIterator
      → Outcome E ((Str × Dict (List C)) × F)
      → Type 0
  Solved log req b (ok ((f, out), s)) =
      (later : Dict (DescriptorMatch C)) × Grows log later
      × Run evaluate descs framed s later
      × ((sol : List Str) × IsSolution later req out sol)
  Solved log req b (failed e) = FilterFails evaluate descs framed e
  Solved log req b no_credentials =
      (s : F) × (later : Dict (DescriptorMatch C)) × Grows log later
      × Run evaluate descs framed s later
      × ((l : List Str)
          → Ahead b l
          → is_satisfied_by req (init_from_slice l) ≡ true
          → ¬ NoneRefused later l)
  Solved log req b panic = ⊥
  Solved log req b out_of_fuel = ⊥

  module _ (fuel : ℕ) (b b' : BitsetIterator) (p : Progress F C) (exclude : List Str) (format : Str)
      (out : List Str) (called : next exclude b ≡ some (b', out)) where
    pub solve_end : out ≡ [] → solve evaluate descs (suc fuel) b p exclude format ≡ no_credentials
    unfolding solve
    solve_end nothing = ground arith

    pub solve_failed :
        (e : E)
        → out ≢ []
        → scan evaluate descs out p ≡ failed e
        → solve evaluate descs (suc fuel) b p exclude format ≡ failed e
    unfolding solve
    solve_failed e more fails = ground arith

    pub solve_solved :
        (pass : Pass F C)
        → out ≢ []
        → scan evaluate descs out p ≡ ok pass
        → pass.solved ≡ true
        → solve evaluate descs (suc fuel) b p exclude format ≡ (
            collect_result evaluate descs out pass.progress.matches format [] >>= λ result.
            ok (result, pass.progress.framed_creds))
    unfolding solve
    solve_solved pass more scanned solved = ground arith

    pub solve_again :
        (pass : Pass F C)
        → out ≢ []
        → scan evaluate descs out p ≡ ok pass
        → pass.solved ≡ false
        → solve evaluate descs (suc fuel) b p exclude format
          ≡ solve evaluate descs fuel b' pass.progress pass.exclude format
    unfolding solve
    solve_again pass more scanned unsolved = ground arith

  pub Solved-earlier :
      (log now : Dict (DescriptorMatch C)) (req : RequirementLogic) (b b' : BitsetIterator)
      (o : Outcome E ((Str × Dict (List C)) × F))
      → Grows log now
      → ((l : List Str)
          → Ahead b l
          → is_satisfied_by req (init_from_slice l) ≡ true
          → NoneRefused now l
          → Ahead b' l)
      → Solved now req b' o
      → Solved log req b o
  Solved-earlier log now req b b' (ok ((f, out), t)) grows keeps (later, more, run, s) =
      (later, λ x n h. more x n (grows x n h), run, s)
  Solved-earlier log now req b b' (failed e) grows keeps s = s
  Solved-earlier log now req b b' no_credentials grows keeps (s, later, more, run, none_left) = (
    s,
    later,
    λ x n h. more x n (grows x n h),
    run,
    λ l ahead good filled.
        none_left l (keeps l ahead good (NoneRefused-before now later l more filled)) good filled,
  )
  Solved-earlier log now req b b' panic grows keeps s = s
  Solved-earlier log now req b b' out_of_fuel grows keeps s = s
