-- ===== src/Presexch/Steps.antt =====
-- The steps of the inner loop of `applyRequirement`, one equation for each way to go on.
use vc_go.Prelude.{
  ◌≡◌, refl, ◌≢◌, ◌⊎◌, inl, inr, true, false, List, [], ◌∷◌, none, some, arith, Str,
}
use vc_go.Prelude.Dicts.{Dict, lookup}
use vc_go.Requirement.Sets.{has, add}
use vc_go.Presexch.Requirements.{InputDescriptor}
use vc_go.Presexch.Apply.{
  Outcome, ok, failed, panic, no_credentials, out_of_fuel, ◌>>=◌, DescriptorMatch, Progress, Pass,
  evaluate_id, record_match, unsolved, scan,
}

-- The value that a first step hands to the next one.
abbrev pub Passes : {E A B : Type 0} → Outcome E A → (A → Outcome E B) → B → Type 0
Passes {A} first next b = (value : A) × (first ≡ ok value) × (next value ≡ ok b)

pub >>=-Passes :
    {E A B : Type 0} (first : Outcome E A) (next : A → Outcome E B) {b : B}
    → (first >>= next) ≡ ok b
    → Passes first next b
>>=-Passes out_of_fuel next bound = cc
>>=-Passes panic next bound = cc
>>=-Passes no_credentials next bound = cc
>>=-Passes (failed cause) next bound = cc
>>=-Passes (ok value) next bound = (value, refl, bound)

pub List-cases {ℓ} : {A : Type ℓ} (l : List A) → (l ≡ []) ⊎ (l ≢ [])
List-cases [] = inl refl
List-cases (x ∷ l) = inr (λ e. cc)

module _ {E D C F : Type 0} (evaluate : F → InputDescriptor D → E ⊎ (DescriptorMatch C × F))
    (descs : Dict (InputDescriptor D)) where
  module _ (id : Str) (sol : List Str) (p : Progress F C) where
    pub scan_forgotten :
        has p.evaluated id ≡ true
        → lookup id p.matches ≡ none
        → scan evaluate descs (id ∷ sol) p ≡ unsolved evaluate descs p []
    unfolding scan
    scan_forgotten h e = ground arith

    pub scan_known :
        {m : DescriptorMatch C}
        → has p.evaluated id ≡ true
        → lookup id p.matches ≡ some m
        → scan evaluate descs (id ∷ sol) p ≡ scan evaluate descs sol p
    unfolding scan
    scan_known h e = ground arith

    pub scan_unfit :
        (key : Str) (m : DescriptorMatch C) (s' : F)
        → has p.evaluated id ≡ false
        → evaluate_id evaluate descs p.framed_creds id ≡ ok (key, m, s')
        → m.creds ≡ []
        → scan evaluate descs (id ∷ sol) p
          ≡ unsolved evaluate descs
              (record p { evaluated = add p.evaluated id; framed_creds = s' })
              (id ∷ [])
    unfolding scan
    scan_unfit key m s' h e nothing = ground arith

    pub scan_fit :
        (key : Str) (m : DescriptorMatch C) (s' : F)
        → has p.evaluated id ≡ false
        → evaluate_id evaluate descs p.framed_creds id ≡ ok (key, m, s')
        → m.creds ≢ []
        → scan evaluate descs (id ∷ sol) p
          ≡ scan evaluate descs sol
              (record_match evaluate descs (add p.evaluated id) p.matches (key, m, s'))
    unfolding scan
    scan_fit key m s' h e more = ground arith

    pub scan_evaluates :
        {r : Pass F C}
        → has p.evaluated id ≡ false
        → scan evaluate descs (id ∷ sol) p ≡ ok r
        → (k : Str × DescriptorMatch C × F) × (evaluate_id evaluate descs p.framed_creds id ≡ ok k)
    unfolding scan
    scan_evaluates h e =
        let (k, found, _) =
          >>=-Passes (evaluate_id evaluate descs p.framed_creds id) _ (rw h at e) in
        (k, found)
