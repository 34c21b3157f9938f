-- ===== src/Presexch/History.antt =====
-- The history of a search of `applyRequirement`: the evaluations that it has made, and what the loop's
-- maps know of them.
use vc_go.Prelude.{
  ◌≡◌, refl, ◌≢◌, ◌⊎◌, inl, inr, true, false, [], ◌∷◌, none, some, arith, Bool-cases, Str, str_eq,
  str_eq_iff, if◌then◌else◌,
}
use vc_go.Prelude.Dicts.{Dict, lookup, lookup-insert}
use vc_go.Requirement.Sets.{has, add, has-add}
use vc_go.Presexch.Requirements.{InputDescriptor}
use vc_go.Presexch.Apply.{DescriptorMatch, Progress, record_match}

module _ {C : Type 0} where
  -- The evaluation of the descriptor has found credentials.
  abbrev pub Fills : Dict (DescriptorMatch C) → Str → DescriptorMatch C → Type 0
  Fills log id m = (lookup id log ≡ some m) × (m.creds ≢ [])

  -- The evaluation of the descriptor has found no credential.
  abbrev pub Unfillable : Dict (DescriptorMatch C) → Str → Type 0
  Unfillable log id = (m : DescriptorMatch C) × (lookup id log ≡ some m) × (m.creds ≡ [])

  -- What was evaluated stays in the history.
  abbrev pub Grows : Dict (DescriptorMatch C) → Dict (DescriptorMatch C) → Type 0
  Grows log later =
      (id : Str) (m : DescriptorMatch C) → lookup id log ≡ some m → lookup id later ≡ some m

  pub Grows-cons :
      (id : Str) (m : DescriptorMatch C) (log : Dict (DescriptorMatch C))
      → lookup id log ≡ none
      → Grows log ((id, m) ∷ log)
  unfolding lookup
  Grows-cons id m log new x n h = elim (Bool-cases (str_eq id x)) [
    | inl same ↦ let e = (str_eq_iff id x).0 same in absurd (ground arith)
    | inr other ↦ rw other h
  ]

  pub lookup-first :
      (id x : Str) (m : DescriptorMatch C) (log : Dict (DescriptorMatch C))
      → lookup x ((id, m) ∷ log) ≡ (if str_eq id x then some m else lookup x log)
  unfolding lookup
  lookup-first id x m log = refl

  pub Unfillable-later :
      (log later : Dict (DescriptorMatch C)) (id : Str)
      → Grows log later
      → Unfillable log id
      → Unfillable later id
  Unfillable-later log later id grows (m, found, nothing) = (m, grows id m found, nothing)

module _ {E D C F : Type 0} (evaluate : F → InputDescriptor D → E ⊎ (DescriptorMatch C × F))
    (descs : Dict (InputDescriptor D)) (framed : F) where
  -- Evaluations one after another, the last one first: each is of another descriptor of the
  -- requirement, on the credentials as the one before has left them, the first on the framed ones.
  pub data Run : F → Dict (DescriptorMatch C) → Type 0 where
    start : Run framed []
    after :
        {s s' : F} {log : Dict (DescriptorMatch C)} (id : Str) (d : InputDescriptor D)
        (m : DescriptorMatch C)
        → Run s log
        → lookup id log ≡ none
        → lookup id descs ≡ some d
        → evaluate s d ≡ inr (m, s')
        → Run s' ((id, m) ∷ log)

  -- The loop's maps and its credentials are those of the history.
  pub record IsSound (log : Dict (DescriptorMatch C)) (p : Progress F C) : Type 0 where
    pub run : Run p.framed_creds log
    pub untried : (id : Str) → has p.evaluated id ≡ false → lookup id log ≡ none
    pub matched : (id : Str) (m : DescriptorMatch C) → lookup id p.matches ≡ some m → Fills log id m
    pub refused :
        (id : Str) → has p.evaluated id ≡ true → lookup id p.matches ≡ none → Unfillable log id

  module _ (log : Dict (DescriptorMatch C)) (p : Progress F C) (id : Str) (m : DescriptorMatch C)
      (s' : F) (s : IsSound log p) (new : has p.evaluated id ≡ false)
      (run : Run s' ((id, m) ∷ log)) where
    pub IsSound-refuse :
        m.creds ≡ []
        → IsSound ((id, m) ∷ log) (record p { evaluated = add p.evaluated id; framed_creds = s' })
    IsSound-refuse nothing = record {
      run = run;
      untried = λ x h.
          let fresh : has p.evaluated x ≡ false = ground (arith, h, has-add p.evaluated id x) in
          let old = s.untried x fresh in
          ground (arith, h, has-add p.evaluated id x, lookup-first id x m log);
      matched = λ x n h.
          let (found, more) = s.matched x n h in
          (Grows-cons id m log (s.untried id new) x n found, more);
      refused = λ x h none_found. elim (Bool-cases (str_eq id x)) [
        | inl same ↦ (m, ground (arith, same, lookup-first id x m log), nothing)
        | inr other ↦
            Unfillable-later log ((id, m) ∷ log) x (Grows-cons id m log (s.untried id new))
              (s.refused x (ground (arith, h, other, has-add p.evaluated id x)) none_found)
      ];
    }

    pub IsSound-record :
        m.creds ≢ []
        → IsSound
            ((id, m) ∷ log)
            (record_match evaluate descs (add p.evaluated id) p.matches (id, m, s'))
    unfolding record_match
    IsSound-record more = record {
      run = run;
      untried = λ x h.
          let fresh : has p.evaluated x ≡ false = ground (arith, h, has-add p.evaluated id x) in
          let old = s.untried x fresh in
          ground (arith, h, has-add p.evaluated id x, lookup-first id x m log);
      matched = λ x n h. elim (Bool-cases (str_eq id x)) [
        | inl same ↦
            let same_match : m ≡ n = ground (arith, lookup-insert id x m p.matches) in
            (ground (arith, same, same_match, lookup-first id x m log), rw (← same_match) more)
        | inr other ↦
            let old : lookup x p.matches ≡ some n =
              ground (arith, lookup-insert id x m p.matches) in
            let (found, full) = s.matched x n old in
            (Grows-cons id m log (s.untried id new) x n found, full)
      ];
      refused = λ x h none_found. elim (Bool-cases (str_eq id x)) [
        | inl same ↦ absurd (ground (arith, lookup-insert id x m p.matches))
        | inr other ↦
            Unfillable-later log ((id, m) ∷ log) x (Grows-cons id m log (s.untried id new)) (
              s.refused x (ground (arith, h, other, has-add p.evaluated id x))
                (ground (arith, lookup-insert id x m p.matches)))
      ];
    }
