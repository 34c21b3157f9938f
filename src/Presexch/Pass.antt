-- ===== src/Presexch/Pass.antt =====
-- A pass of the inner loop of `applyRequirement`, by induction on the solution.
use vc_go.Prelude.{
  ◌≡◌, ◌∙◌, refl, ap, ◌⊎◌, inl, inr, true, false, ◌||◌, List, [], ◌∷◌, some, arith, Bool-cases, Str,
  str_eq, str_eq_iff, str_eq_self,
}
use vc_go.Prelude.Tests.{Option-cases}
use vc_go.Prelude.Dicts.{Dict, lookup, lookup-insert}
use vc_go.Requirement.Sets.{has, add}
use vc_go.Presexch.Requirements.{InputDescriptor}
use vc_go.Presexch.Apply.{
  Outcome, ok, DescriptorMatch, Progress, Pass, evaluate_id, record_match, unsolved, scan,
}
use vc_go.Presexch.History.{
  Unfillable, Grows, Grows-cons, lookup-first, Run, IsSound, IsSound-refuse, IsSound-record,
}
use vc_go.Presexch.Steps.{
  List-cases, scan_forgotten, scan_known, scan_unfit, scan_fit, scan_evaluates,
}
use vc_go.Presexch.Scan.{IsKeyed, Extends, IsPass, evaluate_id-Run}

module _ {E D C F : Type 0} (evaluate : F → InputDescriptor D → E ⊎ (DescriptorMatch C × F))
    (descs : Dict (InputDescriptor D)) (framed : F) where
  IsPass-unsolved :
      (id : Str) (sol exclude : List Str) (log later : Dict (DescriptorMatch C))
      (p q : Progress F C) {r : Pass F C}
      → unsolved evaluate descs q exclude ≡ ok r
      → Grows log later
      → IsSound evaluate descs framed later q
      → Extends evaluate descs framed p q
      → Unfillable later id
      → (exclude ≡ []) ⊎ (exclude ≡ id ∷ [])
      → IsPass evaluate descs framed log (id ∷ sol) p r
  unfolding unsolved has
  IsPass-unsolved id sol exclude log later p q {r} h grows s kept u ex =
      let e : record { progress = q; solved = false; exclude = exclude } ≡ r = ground arith in
      rw (← e) (record {
        later = later;
        grows = grows;
        sound = s;
        extends = kept;
        outcome = inr (refl, (id, here, u, ex));
      })
    where
      here : (str_eq id id || has sol id) ≡ true
      here = rw (str_eq_self id)

  IsPass-more :
      (id : Str) (sol : List Str) (log now : Dict (DescriptorMatch C)) (p q : Progress F C)
      (r : Pass F C) (m : DescriptorMatch C)
      → Grows log now
      → Extends evaluate descs framed p q
      → lookup id q.matches ≡ some m
      → IsPass evaluate descs framed now sol q r
      → IsPass evaluate descs framed log (id ∷ sol) p r
  unfolding has
  IsPass-more id sol log now p q r m grows kept found pass = record {
    later = pass.later;
    grows = λ x n h. pass.grows x n (grows x n h);
    sound = pass.sound;
    extends = λ x n h. pass.extends x n (kept x n h);
    outcome = elim pass.outcome [
      | inl (solved, all, none_out) ↦ inl (solved, ((m, pass.extends id m found), all), none_out)
      | inr (unsolved_pass, (x, listed, u, ex)) ↦ inr (unsolved_pass, (x, ground arith, u, ex))
    ];
  }

  module _ (keyed : IsKeyed descs) where
    -- What is shown of the rest of a solution.
    abbrev Rest : List Str → Pass F C → Type 0
    Rest sol r =
        (log : Dict (DescriptorMatch C)) (q : Progress F C)
        → IsSound evaluate descs framed log q
        → scan evaluate descs sol q ≡ ok r
        → IsPass evaluate descs framed log sol q r

    scan-known_pass :
        (id : Str) (sol : List Str) (log : Dict (DescriptorMatch C)) (p : Progress F C)
        {r : Pass F C}
        → Rest sol r
        → IsSound evaluate descs framed log p
        → has p.evaluated id ≡ true
        → scan evaluate descs (id ∷ sol) p ≡ ok r
        → IsPass evaluate descs framed log (id ∷ sol) p r
    scan-known_pass id sol log p {r} ih s h e = elim (Option-cases (lookup id p.matches)) [
      | inl missing ↦
          IsPass-unsolved id sol [] log log p p
            (rw (scan_forgotten evaluate descs id sol p h missing) at e) (λ x n k. k) s (λ x n k. k)
            (s.refused id h missing) (inl refl)
      | inr (m, found) ↦
          IsPass-more id sol log log p p r m (λ x n k. k) (λ x n k. k) found
            (ih log p s (rw (scan_known evaluate descs id sol p h found) at e))
    ]

    -- A fresh match does not disturb the matches that are there.
    Extends-record :
        (log : Dict (DescriptorMatch C)) (p : Progress F C) (id : Str) (m : DescriptorMatch C)
        (s' : F)
        → IsSound evaluate descs framed log p
        → has p.evaluated id ≡ false
        → Extends evaluate descs framed p
            (record_match evaluate descs (add p.evaluated id) p.matches (id, m, s'))
    unfolding record_match
    Extends-record log p id m s' s fresh x n h = elim (Bool-cases (str_eq id x)) [
      | inl same ↦
          let e = (str_eq_iff id x).0 same in
          let old = s.matched x n h in let new = s.untried id fresh in absurd (ground arith)
      | inr other ↦ rw (lookup-insert id x m p.matches, other) h
    ]

    lookup-record_match :
        (p : Progress F C) (id : Str) (m : DescriptorMatch C) (s' : F)
        → lookup id (record_match evaluate descs (add p.evaluated id) p.matches (id, m, s')).matches
          ≡ some m
    unfolding record_match
    lookup-record_match p id m s' = rw (lookup-insert id id m p.matches, str_eq_self id)

    -- An evaluation on the way, its match and the credentials that it leaves.
    abbrev Evaluates : Str → Dict (DescriptorMatch C) → Progress F C → Type 0
    Evaluates id log p =
        (m : DescriptorMatch C) × (s' : F) × (evaluate_id evaluate descs p.framed_creds id
          ≡ ok (id, m, s'))
        × Run evaluate descs framed s' ((id, m) ∷ log)

    scan-Evaluates :
        (id : Str) (sol : List Str) (log : Dict (DescriptorMatch C)) (p : Progress F C)
        {r : Pass F C}
        → IsSound evaluate descs framed log p
        → has p.evaluated id ≡ false
        → scan evaluate descs (id ∷ sol) p ≡ ok r
        → Evaluates id log p
    scan-Evaluates id sol log p s h e =
        let (k, called) = scan_evaluates evaluate descs id sol p h e in
        let (same_key, run) =
          evaluate_id-Run evaluate descs framed keyed id k.0 p.framed_creds k.2 k.1 log s.run
            (s.untried id h) called in
        (
          k.1,
          k.2,
          called
              ∙ ap {B = Outcome E (Str × DescriptorMatch C × F)} (λ x. ok (x, k.1, k.2)) same_key,
          run,
        )

    scan-fresh_pass :
        (id : Str) (sol : List Str) (log : Dict (DescriptorMatch C)) (p : Progress F C)
        {r : Pass F C}
        → Rest sol r
        → IsSound evaluate descs framed log p
        → has p.evaluated id ≡ false
        → scan evaluate descs (id ∷ sol) p ≡ ok r
        → IsPass evaluate descs framed log (id ∷ sol) p r
    scan-fresh_pass id sol log p {r} ih s h e =
        let (m, s', called, run) = scan-Evaluates id sol log p s h e in
        let grows = Grows-cons id m log (s.untried id h) in
        elim (List-cases (m.creds)) [
          | inl nothing ↦
              IsPass-unsolved id sol (id ∷ []) log ((id, m) ∷ log) p
                (record p { evaluated = add p.evaluated id; framed_creds = s' })
                (rw (scan_unfit evaluate descs id sol p id m s' h called nothing) at e) grows
                (IsSound-refuse evaluate descs framed log p id m s' s h run nothing) (λ x n k. k)
                (m, rw (lookup-first id id m log, str_eq_self id), nothing) (inr refl)
          | inr more ↦
              let q = record_match evaluate descs (add p.evaluated id) p.matches (id, m, s') in
              IsPass-more id sol log ((id, m) ∷ log) p q r m grows
                (Extends-record log p id m s' s h) (lookup-record_match p id m s')
                (ih ((id, m) ∷ log) q
                  (IsSound-record evaluate descs framed log p id m s' s h run more)
                  (rw (scan_fit evaluate descs id sol p id m s' h called more) at e))
        ]

    -- A pass that ends without an error, from maps and credentials that are those of a history of
    -- evaluations, adds its own evaluations to that history, each of another descriptor and on the
    -- credentials as the one before left them, and ends with the maps and the credentials of the longer
    -- history. It keeps the matches; and either all of the solution has matches and nothing is
    -- excluded, or it met a descriptor of the solution whose evaluation has found no credential, and
    -- that is the only one it may exclude.
    pub scan-IsPass :
        (log : Dict (DescriptorMatch C)) (sol : List Str) (p : Progress F C) (r : Pass F C)
        → IsSound evaluate descs framed log p
        → scan evaluate descs sol p ≡ ok r
        → IsPass evaluate descs framed log sol p r
    unfolding scan
    scan-IsPass log [] p r s e =
        let same : record { progress = p; solved = true; exclude = [] } ≡ r = ground arith in
        rw (← same) (record {
          later = log;
          grows = λ x n h. h;
          sound = s;
          extends = λ x n h. h;
          outcome = inl (refl, tt, refl);
        })
    scan-IsPass log (id ∷ sol) p r s e = elim (Bool-cases (has p.evaluated id)) [
      | inl known ↦ scan-known_pass id sol log p (λ l q. scan-IsPass l sol q r) s known e
      | inr fresh ↦ scan-fresh_pass id sol log p (λ l q. scan-IsPass l sol q r) s fresh e
    ]
