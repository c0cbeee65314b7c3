-- ===== src/Availability/Verdict.antt =====
-- What the answer of the availability check says.
use agentsimjs.Prelude.{
  ◌≡◌, refl, String, Bool, true, false, not, List, [], ◌∷◌, ◌++◌, Option, none, some, if_cases, ap,
}
use agentsimjs.Mission.{includes}
use agentsimjs.Availability.{
  Unavailable, vehicle_unsupported, battery_depleted, precondition_failed, AgentFacts, Precondition,
  Capability, precondition_holds, applies, first_failing, vehicle_availability, state_availability,
  command_availability,
}

module _ (f : AgentFacts) where
  -- A precondition that applies holds.
  abbrev pub IsMet : Precondition → Type 0
  IsMet p = applies p f ≡ true → precondition_holds p.name f ≡ true

  abbrev pub AllMet : List Precondition → Type 0
  AllMet [] = Unit {0}
  AllMet (p ∷ ps) = IsMet p × AllMet ps

  -- The first precondition that applies and does not hold, all before it being met.
  pub record FirstFailing (ps : List Precondition) (name : String) : Type 0 where
    pub before : List Precondition
    pub failing : Precondition
    pub after : List Precondition
    pub whole : ps ≡ before ++ failing ∷ after
    pub named : failing.name ≡ name
    pub met : AllMet before
    pub applied : applies failing f ≡ true
    pub broken : precondition_holds failing.name f ≡ false

  abbrev State : List Precondition → Option Unavailable → Type 0
  State ps none = AllMet ps
  State ps (some vehicle_unsupported) = ⊥
  State ps (some battery_depleted) = ⊥
  State ps (some (precondition_failed name)) = FirstFailing ps name

  later :
      (p : Precondition) (ps : List Precondition) (o : Option Unavailable)
      → IsMet p
      → State ps o
      → State (p ∷ ps) o
  later p ps none m h = (m, h)
  later p ps (some vehicle_unsupported) m h = h
  later p ps (some battery_depleted) m h = h
  later p ps (some (precondition_failed name)) m h = record {
    before = p ∷ h.before;
    failing = h.failing;
    after = h.after;
    whole = ap (◌∷◌ p) h.whole;
    named = h.named;
    met = (m, h.met);
    applied = h.applied;
    broken = h.broken;
  }

  first_failing-State : (ps : List Precondition) → State ps (first_failing ps f)
  unfolding first_failing
  first_failing-State [] = tt
  first_failing-State (p ∷ ps) =
      if_cases (State (p ∷ ps)) (not (applies p f))
        (λ e.
          later p ps (first_failing ps f) (λ a. absurd (apart (applies p f) a e))
            (first_failing-State ps))
        (λ e.
          if_cases (State (p ∷ ps)) (precondition_holds p.name f)
            (λ e'. later p ps (first_failing ps f) (λ _. e') (first_failing-State ps))
            (λ e'. record {
              before = [];
              failing = p;
              after = ps;
              whole = refl;
              named = refl;
              met = tt;
              applied = affirmed (applies p f) e;
              broken = e';
            }))
    where
      apart : (b : Bool) → b ≡ true → not b ≡ true → ⊥
      apart true a e = cc
      apart false a e = cc

      affirmed : (b : Bool) → not b ≡ false → b ≡ true
      affirmed true e = refl
      affirmed false e = cc

  -- An action is available exactly when its vehicles include the agent's, the battery is not empty
  -- and each precondition that applies holds; a refusal gives the first of these that fails.
  abbrev pub Verdict : Capability → String → Option Unavailable → Type 0
  Verdict caps name none =
      (includes (caps.vehicles name) f.kind ≡ true)
      × ((f.soc_empty ≡ false) × AllMet (caps.preconditions name))
  Verdict caps name (some vehicle_unsupported) = includes (caps.vehicles name) f.kind ≡ false
  Verdict caps name (some battery_depleted) =
      (includes (caps.vehicles name) f.kind ≡ true) × (f.soc_empty ≡ true)
  Verdict caps name (some (precondition_failed p)) =
      (includes (caps.vehicles name) f.kind ≡ true)
      × ((f.soc_empty ≡ false) × FirstFailing (caps.preconditions name) p)

  charged :
      (caps : Capability) (name : String) (o : Option Unavailable)
      → includes (caps.vehicles name) f.kind ≡ true
      → f.soc_empty ≡ false
      → State (caps.preconditions name) o
      → Verdict caps name o
  charged caps name none v c h = (v, (c, h))
  charged caps name (some vehicle_unsupported) v c h = elim h [ ]
  charged caps name (some battery_depleted) v c h = elim h [ ]
  charged caps name (some (precondition_failed p)) v c h = (v, (c, h))

  -- The check gives the verdict: available when the vehicle, the battery and every precondition that
  -- applies allow it, and else the first of these that does not.
  pub command_availability-Verdict :
      (caps : Capability) (name : String) → Verdict caps name (command_availability caps name f)
  unfolding command_availability vehicle_availability state_availability
  command_availability-Verdict caps name =
      if_cases
        (λ (o : Option Unavailable).
          Verdict caps name (elim o [ some u ↦ some u | none ↦ state_availability caps name f ]))
        (includes (caps.vehicles name) f.kind)
        (λ v.
          if_cases (Verdict caps name) f.soc_empty (λ e. (v, e))
            (λ c.
              charged caps name (first_failing (caps.preconditions name) f) v c
                (first_failing-State (caps.preconditions name))))
        (λ v. v)
