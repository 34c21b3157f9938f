-- ===== src/Presexch/Complete.antt =====
-- The outer loop of `applyRequirement`, by induction on the rounds left.
use vc_go.Prelude.{
  ℕ, zero, suc, ◌+◌, ◌^◌, ◌<◌, ◌≡◌, ◌∙◌, refl, ◌≢◌, ◌⊎◌, inl, inr, true, false, List, [], ◌∷◌, some,
  arith, length, Str,
}
use vc_go.Prelude.Dicts.{Dict}
use vc_go.Requirement.Sets.{has, init_from_slice}
use vc_go.Requirement.Logic.{RequirementLogic, is_satisfied_by}
use vc_go.Requirement.Iterator.{BitsetIterator, next}
use vc_go.Requirement.Search.{advanced}
use vc_go.Requirement.Enumeration.{IsLive, IsRound, next-IsRound}
use vc_go.Requirement.Ahead.{advanced-NoDup}
use vc_go.Presexch.Requirements.{InputDescriptor}
use vc_go.Presexch.Apply.{
  Outcome, ok, failed, no_credentials, panic, out_of_fuel, DescriptorMatch, Progress, Pass, scan,
  solve,
}
use vc_go.Presexch.History.{Unfillable, Grows, IsSound}
use vc_go.Presexch.Scan.{IsKeyed, AllMatched}
use vc_go.Presexch.Pass.{scan-IsPass}
use vc_go.Presexch.Ends.{Ends, scan-Ends, collect_result-IsResult}
use vc_go.Presexch.Solution.{
  Solved, solve_end, solve_failed, solve_solved, solve_again, Solved-earlier,
}
use vc_go.Presexch.Keeps.{all_matched, keeps_Ahead, none_ahead, InLoop-next}
use vc_go.Presexch.Round.{
  NoneRefused-before, InLoop, IsAdvance, advanced-IsAdvance, AllKnown-chosen, AllKnown-advanced,
}

module _ {E D C F : Type 0} (evaluate : F → InputDescriptor D → E ⊎ (DescriptorMatch C × F))
    (descs : Dict (InputDescriptor D)) (framed : F) (keyed : IsKeyed descs)
    (req : RequirementLogic) where
  -- What a recursive call of `solve` will have shown.
  abbrev Later : ℕ → Str → Type 0
  Later fuel format =
      (log : Dict (DescriptorMatch C)) (b : BitsetIterator) (p : Progress F C) (exclude : List Str)
      → b.req ≡ req
      → InLoop evaluate descs framed log b p exclude
      → 2 ^ length b.descs < b.state + fuel
      → Solved evaluate descs framed log req b (solve evaluate descs fuel b p exclude format)

  -- One round that finds a candidate `out`.
  module _ (fuel : ℕ) (format : Str) (later : Later fuel format) (log : Dict (DescriptorMatch C))
      (b b' : BitsetIterator) (p : Progress F C) (exclude : List Str) (out : List Str)
      (same : b.req ≡ req) (inv : InLoop evaluate descs framed log b p exclude)
      (enough : 2 ^ length b.descs < b.state + suc fuel) (called : next exclude b ≡ some (b', out))
      (round : IsRound (advanced exclude b) b' out) where
    a : BitsetIterator
    a = advanced exclude b

    adv : IsAdvance evaluate descs framed log b (advanced exclude b)
    adv = advanced-IsAdvance evaluate descs framed log b p exclude inv

    req_a : (advanced exclude b).req ≡ req
    req_a = adv.same_req ∙ same

    solved_round :
        (now : Dict (DescriptorMatch C)) (pass : Pass F C)
        → Grows log now
        → out ≢ []
        → is_satisfied_by req (init_from_slice out) ≡ true
        → scan evaluate descs out p ≡ ok pass
        → pass.solved ≡ true
        → IsSound evaluate descs framed now pass.progress
        → AllMatched evaluate descs framed out pass.progress
        → Solved evaluate descs framed log req b
            (solve evaluate descs (suc fuel) b p exclude format)
    solved_round now pass grows more good scanned solved sound all =
        let (f, res, collected, r) =
          collect_result-IsResult evaluate descs framed out pass.progress format [] all in
        rw
          (
            solve_solved evaluate descs framed fuel b b' p exclude format out called pass more
                scanned solved,
            collected,
          )
          (
            now,
            grows,
            sound.run,
            (
              out,
              all_matched evaluate descs framed req now out pass.progress res sound more good r,
            ),
          )

    again_round :
        (now : Dict (DescriptorMatch C)) (pass : Pass F C) (id : Str)
        → Grows log now
        → out ≢ []
        → IsLive b'
        → scan evaluate descs out p ≡ ok pass
        → pass.solved ≡ false
        → IsSound evaluate descs framed now pass.progress
        → has out id ≡ true
        → Unfillable now id
        → (pass.exclude ≡ []) ⊎ (pass.exclude ≡ id ∷ [])
        → Solved evaluate descs framed log req b
            (solve evaluate descs (suc fuel) b p exclude format)
    again_round now pass id grows more live' scanned unsolved sound listed u ex =
        rw
          (solve_again evaluate descs framed fuel b b' p exclude format out called pass more scanned
            unsolved)
          (Solved-earlier evaluate descs framed log now req b b' _ grows
            (λ l ahead good filled.
              keeps_Ahead evaluate descs framed req now (advanced exclude b) b' out id l round req_a
                listed u (adv.keeps l ahead (NoneRefused-before log now l grows filled)) good
                filled)
            (later now b' pass.progress pass.exclude (round.same_req ∙ req_a)
              (InLoop-next evaluate descs framed req now (advanced exclude b) b' out pass.progress
                pass.exclude id round live' (advanced-NoDup exclude b inv.nodup)
                (AllKnown-advanced evaluate descs framed exclude b inv.known) sound listed u ex)
              (rw round.same_descs (omega (arith, enough, adv.closer, round.from)))))

    scanned_round :
        (pass : Pass F C)
        → out ≢ []
        → IsLive b'
        → is_satisfied_by req (init_from_slice out) ≡ true
        → scan evaluate descs out p ≡ ok pass
        → Solved evaluate descs framed log req b
            (solve evaluate descs (suc fuel) b p exclude format)
    scanned_round pass more live' good scanned =
        let known = scan-IsPass evaluate descs framed keyed log out p pass inv.sound scanned in
        elim known.outcome [
          | inl (solved, all, _) ↦
              solved_round known.later pass known.grows more good scanned solved known.sound all
          | inr (unsolved, (id, listed, u, ex)) ↦
              again_round known.later pass id known.grows more live' scanned unsolved known.sound
                listed u ex
        ]

    candidate_round :
        (o : Outcome E (Pass F C))
        → scan evaluate descs out p ≡ o
        → Ends evaluate descs framed o
        → out ≢ []
        → IsLive b'
        → is_satisfied_by req (init_from_slice out) ≡ true
        → Solved evaluate descs framed log req b
            (solve evaluate descs (suc fuel) b p exclude format)
    candidate_round (ok pass) e ends more live' good = scanned_round pass more live' good e
    candidate_round (failed x) e ends more live' good =
        rw (solve_failed evaluate descs framed fuel b b' p exclude format out called x more e) ends
    candidate_round no_credentials e ends more live' good = absurd ends
    candidate_round panic e ends more live' good = absurd ends
    candidate_round out_of_fuel e ends more live' good = absurd ends

    any_round :
        Solved evaluate descs framed log req b (solve evaluate descs (suc fuel) b p exclude format)
    any_round = elim round.outcome [
      | inl (nothing, _, last) ↦
          rw (solve_end evaluate descs framed fuel b b' p exclude format out called nothing) (
            p.framed_creds,
            log,
            λ x n h. h,
            inv.sound.run,
            λ l ahead good filled.
                none_ahead evaluate descs framed req (advanced exclude b) b' out l round req_a last
                  (adv.keeps l ahead filled) good,
          )
      | inr (more, live', good) ↦
          candidate_round (scan evaluate descs out p) refl
            (scan-Ends evaluate descs framed keyed out log p inv.sound (
              rw round.choice (
                AllKnown-chosen evaluate descs framed b'.state (advanced exclude b).descs
                  (AllKnown-advanced evaluate descs framed exclude b inv.known))))
            more live' (ground (arith, round.choice, req_a))
    ]

  -- With enough fuel the search ends, and its answer is right.
  pub solve-Solved : (fuel : ℕ) (format : Str) → Later fuel format
  solve-Solved zero format log b p exclude same inv enough =
      absurd (omega (arith, inv.live.in_range))
  solve-Solved (suc fuel) format log b p exclude same inv enough =
      let adv = advanced-IsAdvance evaluate descs framed log b p exclude inv in
      let (b', out, called, round) =
        next-IsRound exclude b inv.live.running adv.positive adv.in_range in
      any_round fuel format (solve-Solved fuel format) log b b' p exclude out same inv enough called
        round
