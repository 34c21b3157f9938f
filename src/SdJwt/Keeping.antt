-- ===== src/SdJwt/Keeping.antt =====
-- What a traversal by `discloseClaimValue` keeps of its state, and how its steps are put together.
use mathlib.Core.Path.{subst}
use vc_go.Prelude.{
  ℕ, ◌≤◌, ◌<◌, ◌≡◌, ◌∙◌, refl, sym, ap, ◌≢◌, ◌⊎◌, inl, inr, true, false, List, Option, none, some,
  arith, Bool-cases, Str, str_eq, str_eq_iff,
}
use vc_go.Prelude.Dicts.{Dict, lookup, insert, keys, lookup-insert}
use vc_go.Requirement.Sets.{has}
use vc_go.SdJwt.Types.{
  Value, Items, null, number, text, array, object, nil, item, Error, Result, ok, err, out_of_fuel,
  ◌>>=◌, DisclosureClaim, RecursiveData,
}
use vc_go.SdJwt.Claims.{string_array, texts_of}
use vc_go.SdJwt.Disclosures.{require, text_of}
use vc_go.SdJwt.Disclose.{Disclosing, add_nested, store_claim, set_parsed, add_claim, add_value}
use vc_go.SdJwt.Mentions.{Mentions}
use vc_go.SdJwt.Unseen.{unseen, unseen-grows, keys-insert}

-- The digests that were met stay met.
unfoldable pub Grows : RecursiveData → RecursiveData → Type 0
Grows s t = (d : Str) → has s.nested_sd d ≡ true → has t.nested_sd d ≡ true

pub Grows-refl : (s : RecursiveData) → Grows s s
unfolding Grows
Grows-refl s = λ d h. h

abbrev pub state_of : {A : Type 0} → A × RecursiveData → RecursiveData
state_of (a, s) = s

abbrev pub digests_state : Dict Value × List Str × RecursiveData → RecursiveData
digests_state (new, missing, s) = s

pub require-fueled : {A : Type 0} (cause : Error) (o : Option A) → require cause o ≢ out_of_fuel
require-fueled cause none = λ e. cc
require-fueled cause (some a) = λ e. cc

pub require-some :
    {A : Type 0} (cause : Error) (o : Option A) {a : A} → require cause o ≡ ok a → o ≡ some a
require-some cause none h = cc
require-some cause (some b) h = cc

pub text_of-text : (v : Value) (d : Str) → text_of v ≡ some d → v ≡ text d
unfolding text_of
text_of-text null d h = cc
text_of-text (number n) d h = cc
text_of-text (text t) d h = cc
text_of-text (array vs) d h = cc
text_of-text (object fs) d h = cc

pub texts_of-fueled : (vs : Items) → texts_of vs ≢ out_of_fuel
unfolding texts_of
texts_of-fueled nil = ground arith
texts_of-fueled (item (text t) vs) = ground (arith, texts_of-fueled vs)
texts_of-fueled (item null vs) = λ e. cc
texts_of-fueled (item (number n) vs) = λ e. cc
texts_of-fueled (item (array ws) vs) = λ e. cc
texts_of-fueled (item (object fs) vs) = λ e. cc

pub string_array-fueled : (v : Value) → string_array v ≢ out_of_fuel
unfolding string_array
string_array-fueled null = λ e. cc
string_array-fueled (number n) = λ e. cc
string_array-fueled (text t) = λ e. cc
string_array-fueled (array vs) = texts_of-fueled vs
string_array-fueled (object fs) = λ e. cc

pub add_claim-fueled :
    (go : Disclosing) (name : Str) (v : Value) (new : Dict Value)
    → add_claim go name v new ≢ out_of_fuel
unfolding add_claim
add_claim-fueled go name v new = ground arith

pub add_value-fueled :
    (go : Disclosing) (k : Str) (v : Value) (new : Dict Value) → add_value go k v new ≢ out_of_fuel
unfolding add_value
add_value-fueled go k v new = ground (arith, add_claim-fueled go k v new)

module _ (known : Str → Type 0) (claims : Dict DisclosureClaim) where
  -- The claims have the keys of the start; those that are not parsed are as they were, and the others
  -- are known.
  pub record IsKept (s : RecursiveData) : Type 0 where
    pub same_keys : keys s.disclosures ≡ keys claims
    pub untouched :
        (k : Str) (c : DisclosureClaim)
        → lookup k s.disclosures ≡ some c
        → c.is_value_parsed ≡ false
        → lookup k claims ≡ some c
    pub parsed :
        (k : Str) (c : DisclosureClaim)
        → lookup k s.disclosures ≡ some c
        → c.is_value_parsed ≡ true
        → known k

  -- A result that keeps the traversal sound, and is not for lack of fuel.
  abbrev pub Good : {A : Type 0} → (A → RecursiveData) → RecursiveData → Result A → Type 0
  Good at s (ok a) = IsKept (at a) × Grows s (at a)
  Good at s (err cause) = Unit
  Good at s out_of_fuel = ⊥

  pub Good-Grows :
      {A : Type 0} (at : A → RecursiveData) (s t : RecursiveData) (r : Result A)
      → Grows s t
      → Good at t r
      → Good at s r
  unfolding Grows
  Good-Grows at s t (ok a) g (kept, h) = (kept, λ d m. h d (g d m))
  Good-Grows at s t (err cause) g h = tt
  Good-Grows at s t out_of_fuel g h = h

  pub Good-then :
      {A B : Type 0} (at : A → RecursiveData) (at' : B → RecursiveData) (s : RecursiveData)
      (first : Result A) (next : A → Result B)
      → Good at s first
      → ((a : A) → IsKept (at a) → Grows s (at a) → Good at' (at a) (next a))
      → Good at' s (first >>= next)
  Good-then at at' s (ok a) next (kept, grows) h =
      Good-Grows at' s (at a) (next a) grows (h a kept grows)
  Good-then at at' s (err cause) next g h = tt
  Good-then at at' s out_of_fuel next g h = g

  -- A first step that has nothing to do with the traversal.
  pub Good-after :
      {A B : Type 0} (at' : B → RecursiveData) (s : RecursiveData) (first : Result A)
      (next : A → Result B)
      → first ≢ out_of_fuel
      → ((a : A) → first ≡ ok a → Good at' s (next a))
      → Good at' s (first >>= next)
  Good-after at' s (ok a) next fueled h = h a refl
  Good-after at' s (err cause) next fueled h = tt
  Good-after at' s out_of_fuel next fueled h = absurd (fueled refl)

  abbrev pub left : RecursiveData → ℕ
  left s = unseen (keys claims) s.nested_sd

  -- Values whose digests are all known are disclosed well while fewer than `m` keys are left.
  abbrev pub Serves : Disclosing → ℕ → Type 0
  Serves go m =
      (v : Value) (s : RecursiveData)
      → IsKept s
      → ((d : Str) → Mentions d v → known d)
      → left s < m
      → Good state_of s (go v s)

  pub left-Grows : (s t : RecursiveData) → Grows s t → left t ≤ left s
  unfolding Grows
  left-Grows s t grows = unseen-grows (keys claims) s.nested_sd t.nested_sd grows

  pub add_nested-IsKept : (d : Str) (s : RecursiveData) → IsKept s → IsKept (add_nested d s)
  unfolding add_nested
  add_nested-IsKept d s kept = record {
    same_keys = kept.same_keys;
    untouched = kept.untouched;
    parsed = kept.parsed;
  }

  pub store_claim-IsKept :
      (d : Str) (c : DisclosureClaim) (v : Value) (s : RecursiveData)
      → known d
      → has (keys claims) d ≡ true
      → IsKept s
      → IsKept (store_claim d (set_parsed c v) s)
  unfolding store_claim set_parsed
  store_claim-IsKept d c v s k present kept = record {
    same_keys =
        keys-insert d (set_parsed c v) s.disclosures
          (subst (λ ks. has ks d ≡ true) (sym kept.same_keys) present)
        ∙ kept.same_keys;
    untouched = λ j b at unparsed. elim (stored-cases j b at) [
      | inl (_, e) ↦ ground (arith, unparsed, ap (λ x. x.is_value_parsed) e)
      | inr old ↦ kept.untouched j b old unparsed
    ];
    parsed = λ j b at done. elim (stored-cases j b at) [
      | inl (same, _) ↦ subst known same k
      | inr old ↦ kept.parsed j b old done
    ];
  }
    where
      stored-cases :
          (j : Str) (b : DisclosureClaim)
          → lookup j (insert d (set_parsed c v) s.disclosures) ≡ some b
          → ((d ≡ j) × (set_parsed c v ≡ b)) ⊎ (lookup j s.disclosures ≡ some b)
      stored-cases j b at = elim (Bool-cases (str_eq d j)) [
        | inl same ↦
            let stored = rw same at (lookup-insert d j (set_parsed c v) s.disclosures) in
            inl ((str_eq_iff d j).0 same, cc)
        | inr other ↦
            let old = rw other at (lookup-insert d j (set_parsed c v) s.disclosures) in
            inr (sym old ∙ at)
      ]
