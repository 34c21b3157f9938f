-- ===== src/Presexch/Ends.antt =====
-- How the loops of `applyRequirement` end: which errors they pass on, and what the result holds.
use vc_go.Prelude.{
  ◌≡◌, ◌∙◌, refl, ◌⊎◌, inl, inr, true, false, List, [], ◌∷◌, some, arith, Bool-cases, Str, str_eq,
  str_eq_iff,
}
use vc_go.Prelude.Tests.{Option-cases}
use vc_go.Prelude.Dicts.{Dict, lookup, insert, lookup-insert}
use vc_go.Requirement.Sets.{has}
use vc_go.Presexch.Requirements.{InputDescriptor}
use vc_go.Presexch.Apply.{
  Outcome, ok, failed, panic, no_credentials, out_of_fuel, DescriptorMatch, Progress, evaluate_id,
  unsolved, scan, pick_format, collect_result,
}
use vc_go.Presexch.History.{Run, IsSound, IsSound-record}
use vc_go.Presexch.Scan.{IsKeyed, AllMatched, evaluate_id-Run}
use vc_go.Presexch.Steps.{List-cases, scan_forgotten, scan_known, scan_unfit, scan_fit}

module _ {E D C F : Type 0} (evaluate : F → InputDescriptor D → E ⊎ (DescriptorMatch C × F))
    (descs : Dict (InputDescriptor D)) (framed : F) where
  -- Every descriptor of the list is in the map.
  abbrev pub AllKnown : List Str → Type 0
  AllKnown [] = Unit
  AllKnown (id ∷ l) = ((d : InputDescriptor D) × (lookup id descs ≡ some d)) × AllKnown l

  -- An error that the filters report for a descriptor of the requirement, on the credentials as the
  -- evaluations before it have left them.
  abbrev pub FilterFails : E → Type 0
  FilterFails e =
      (s : F) × (log : Dict (DescriptorMatch C)) × (id : Str) × (d : InputDescriptor D) × Run
        evaluate descs framed s log
      × (lookup id descs ≡ some d)
      × (evaluate s d ≡ inl e)

  -- A value, or an error of the filters.
  abbrev pub Ends : {A : Type 0} → Outcome E A → Type 0
  Ends (ok a) = Unit
  Ends (failed e) = FilterFails e
  Ends no_credentials = ⊥
  Ends panic = ⊥
  Ends out_of_fuel = ⊥

  -- What an evaluation on the way may come to.
  abbrev Evaluation : F → Str → Type 0
  Evaluation s id =
      ((e : E) × (evaluate_id evaluate descs s id ≡ failed e) × FilterFails e)
      ⊎ ((key : Str) × (m : DescriptorMatch C) × (s' : F) × (evaluate_id evaluate descs s id
            ≡ ok (key, m, s')))

  evaluate_id-cases :
      (s : F) (log : Dict (DescriptorMatch C)) (id : Str) (d : InputDescriptor D)
      → Run evaluate descs framed s log
      → lookup id descs ≡ some d
      → Evaluation s id
  unfolding evaluate_id
  evaluate_id-cases s log id d r h = go (evaluate s d) refl
    where
      go : (o : E ⊎ (DescriptorMatch C × F)) → evaluate s d ≡ o → Evaluation s id
      go (inl e) q = inl (e, rw (h, q, evaluate_id), (s, log, id, d, r, h, q))
      go (inr (m, s')) q = inr (d.id, m, s', rw (h, q, evaluate_id))

  scan_fails :
      (id : Str) (sol : List Str) (p : Progress F C) (e : E)
      → has p.evaluated id ≡ false
      → evaluate_id evaluate descs p.framed_creds id ≡ failed e
      → scan evaluate descs (id ∷ sol) p ≡ failed e
  unfolding scan
  scan_fails id sol p e h fails = rw (h, fails)

  -- The inner loop panics on no descriptor that the map holds.
  pub scan-Ends :
      IsKeyed descs
      → (sol : List Str) (log : Dict (DescriptorMatch C)) (p : Progress F C)
      → IsSound evaluate descs framed log p
      → AllKnown sol
      → Ends (scan evaluate descs sol p)
  unfolding scan unsolved
  scan-Ends keyed [] log p s known = tt
  scan-Ends keyed (id ∷ sol) log p s ((d, here), known) = elim (Bool-cases (has p.evaluated id)) [
    | inl old ↦ elim (Option-cases (lookup id p.matches)) [
      | inl missing ↦ rw (scan_forgotten evaluate descs id sol p old missing) tt
      | inr (m, found) ↦
          rw (scan_known evaluate descs id sol p old found) (scan-Ends keyed sol log p s known)
    ]
    | inr new ↦ elim (evaluate_id-cases p.framed_creds log id d s.run here) [
      | inl (e, fails, cause) ↦ rw (scan_fails id sol p e new fails) cause
      | inr (key, m, s', done) ↦ elim (List-cases (m.creds)) [
        | inl nothing ↦ rw (scan_unfit evaluate descs id sol p key m s' new done nothing) tt
        | inr more ↦
            let (same_key, run) =
              evaluate_id-Run evaluate descs framed keyed id key p.framed_creds s' m log s.run
                (s.untried id new) done in
            rw (scan_fit evaluate descs id sol p key m s' new done more, same_key)
              (scan-Ends keyed sol ((id, m) ∷ log) _
                (IsSound-record evaluate descs framed log p id m s' s new run more) known)
      ]
    ]
  ]

  -- What the result holds: the matched credentials of each descriptor of the list, over `result`.
  pub record IsResult (sol : List Str) (p : Progress F C) (result out : Dict (List C))
      : Type 0 where
    pub inside :
        (x : Str)
        → has sol x ≡ true
        → (m : DescriptorMatch C) × (lookup x p.matches ≡ some m) × (lookup x out ≡ some m.creds)
    pub outside : (x : Str) → has sol x ≡ false → lookup x out ≡ lookup x result

  IsResult-cons :
      (id : Str) (sol : List Str) (p : Progress F C) (result out : Dict (List C))
      (m : DescriptorMatch C)
      → lookup id p.matches ≡ some m
      → IsResult sol p (insert id m.creds result) out
      → IsResult (id ∷ sol) p result out
  unfolding has
  IsResult-cons id sol p result out m found r = record {
    inside = λ x h. elim (Bool-cases (has sol x)) [
      | inl later ↦ r.inside x later
      | inr here ↦
          let same_id : str_eq id x ≡ true = ground arith in
          let same : id ≡ x = (str_eq_iff id x).0 same_id in
          (m, rw (← same) found, r.outside x here ∙ rw (lookup-insert id x m.creds result, same_id))
    ];
    outside = λ x h.
        let other : str_eq id x ≡ false = ground arith in
        let later : has sol x ≡ false = ground arith in
        r.outside x later ∙ rw (lookup-insert id x m.creds result, other);
  }

  collect_result_step :
      (id : Str) (sol : List Str) (p : Progress F C) (vp_format : Str) (result : Dict (List C))
      (m : DescriptorMatch C)
      → lookup id p.matches ≡ some m
      → collect_result evaluate descs (id ∷ sol) p.matches vp_format result
        ≡ collect_result evaluate descs sol p.matches
            (pick_format m.format vp_format)
            (insert id m.creds result)
  unfolding collect_result
  collect_result_step id sol p vp_format result m found = rw (found, collect_result)

  -- With a match for each descriptor there is a result.
  pub collect_result-IsResult :
      (sol : List Str) (p : Progress F C) (vp_format : Str) (result : Dict (List C))
      → AllMatched evaluate descs framed sol p
      → (f : Str) × (out : Dict (List C)) × (collect_result evaluate descs sol p.matches vp_format
            result
          ≡ ok (f, out))
        × IsResult sol p result out
  unfolding collect_result has
  collect_result-IsResult [] p vp_format result all =
      (vp_format, result, refl, record { inside = λ x h. cc; outside = λ x h. refl })
  collect_result-IsResult (id ∷ sol) p vp_format result ((m, found), all) =
      let (f, out, collected, r) =
        collect_result-IsResult sol p (pick_format m.format vp_format) (insert id m.creds result)
          all in
      (
        f,
        out,
        collect_result_step id sol p vp_format result m found ∙ collected,
        IsResult-cons id sol p result out m found r,
      )
