-- ===== src/Presexch/Scan.antt =====
-- The inner loop of `applyRequirement`: what a pass over one solution finds out.
use vc_go.Prelude.{
  ◌≡◌, ◌∙◌, refl, sym, ◌⊎◌, inl, inr, true, false, List, [], ◌∷◌, none, some, arith, Str,
}
use vc_go.Prelude.Tests.{Option-cases}
use vc_go.Prelude.Dicts.{Dict, lookup}
use vc_go.Requirement.Sets.{has}
use vc_go.Presexch.Requirements.{InputDescriptor}
use vc_go.Presexch.History.{Run, after, Grows, Unfillable, IsSound}
use vc_go.Presexch.Apply.{Outcome, ok, DescriptorMatch, Progress, Pass, evaluate_id}

-- The map's keys are the descriptors' own identifiers.
abbrev pub IsKeyed : {D : Type 0} → Dict (InputDescriptor D) → Type 0
IsKeyed {D} descs = (id : Str) (d : InputDescriptor D) → lookup id descs ≡ some d → d.id ≡ id

module _ {E D C F : Type 0} (evaluate : F → InputDescriptor D → E ⊎ (DescriptorMatch C × F))
    (descs : Dict (InputDescriptor D)) (framed : F) where
  -- Every descriptor of the list has its match.
  abbrev pub AllMatched : List Str → Progress F C → Type 0
  AllMatched [] p = Unit
  AllMatched (id ∷ l) p =
      ((m : DescriptorMatch C) × (lookup id p.matches ≡ some m)) × AllMatched l p

  -- Matches are kept.
  abbrev pub Extends : Progress F C → Progress F C → Type 0
  Extends p q =
      (id : Str) (m : DescriptorMatch C)
      → lookup id p.matches ≡ some m
      → lookup id q.matches ≡ some m

  -- A pass adds its evaluations to the history and keeps the matches. It either matches the whole
  -- solution, or meets a descriptor of it that nothing has filled; it excludes none or that one.
  pub record IsPass (log : Dict (DescriptorMatch C)) (sol : List Str) (p : Progress F C)
      (r : Pass F C) : Type 0 where
    pub later : Dict (DescriptorMatch C)
    pub grows : Grows log later
    pub sound : IsSound evaluate descs framed later r.progress
    pub extends : Extends p r.progress
    pub outcome :
        ((r.solved ≡ true) × AllMatched sol r.progress × (r.exclude ≡ []))
        ⊎ ((r.solved ≡ false)
            × ((id : Str) × (has sol id ≡ true)
                × Unfillable later id
                × ((r.exclude ≡ []) ⊎ (r.exclude ≡ id ∷ []))))

  pub evaluate_id-Run :
      IsKeyed descs
      → (id key : Str) (s s' : F) (m : DescriptorMatch C) (log : Dict (DescriptorMatch C))
      → Run evaluate descs framed s log
      → lookup id log ≡ none
      → evaluate_id evaluate descs s id ≡ ok (key, m, s')
      → (key ≡ id) × Run evaluate descs framed s' ((id, m) ∷ log)
  unfolding evaluate_id
  evaluate_id-Run keyed id key s s' m log r new h = elim (Option-cases (lookup id descs)) [
    | inl missing ↦ absurd (ground arith)
    | inr (d, found) ↦
        let (key_is, e) = made d found (evaluate s d) refl in
        (sym key_is ∙ keyed id d found, after id d m r new found e)
  ]
    where
      made :
          (d : InputDescriptor D)
          → lookup id descs ≡ some d
          → (o : E ⊎ (DescriptorMatch C × F)) → evaluate s d ≡ o
          → (d.id ≡ key) × (evaluate s d ≡ inr (m, s'))
      made d found (inl cause) e = absurd (ground arith)
      made d found (inr (n, t)) e =
          let same : ◌≡◌ {A = Outcome E (Str × DescriptorMatch C × F)} (ok (d.id, n, t))
              (ok (key, m, s')) =
            rw (evaluate_id, found, e) at h in
          let key_is : d.id ≡ key = cc in
          let match_is : n ≡ m = cc in let state_is : t ≡ s' = cc in (key_is, cc)
