-- ===== src/Barrier/Transitions.antt =====
-- The transitions that the controller's timeline makes of a channel's messages, and what the wait for
-- the first one leaves of them.
use mathlib.Core.Path.{subst}
use mathlib.Core.List.{append_assoc}
use incident_bench.Base.{
  ℕ, suc, ◌+◌, ◌-◌, ◌≡◌, refl, sym, ap, ◌∙◌, String, Option, none, some, List, [], ◌∷◌, ◌++◌, map,
  ℤ, arith, ltb, drop, drop-nil, Bool-cases, inl, inr,
}
use incident_bench.PhaseController.{PhaseSpec}
use incident_bench.PhaseController.Timeline.{
  ControllerMessage, Surroundings, rate_for, run_phases, run_timeline,
}
use incident_bench.Barrier.Messages.{
  messages_to, IsSteady, phase_messages, sent, sent-skip, sent-run, messages_to-run_timeline,
}
use incident_bench.Barrier.{
  PhaseEvent, prepare_transition, transition, run_complete, Entered, inbound, wait_for_transition,
}

-- The phases that events enter, each with the rate that comes with it.
abbrev pub entered_in : List PhaseEvent → List (String × ℤ)
entered_in [] = []
entered_in (transition from to time rate ∷ rest) = (to, rate) ∷ entered_in rest
entered_in (prepare_transition from to ∷ rest) = entered_in rest
entered_in (run_complete ∷ rest) = entered_in rest

pub entered_in-append :
    (xs ys : List PhaseEvent) → entered_in (xs ++ ys) ≡ entered_in xs ++ entered_in ys
entered_in-append [] ys = refl
entered_in-append (transition from to time rate ∷ xs) ys =
    ap (◌∷◌ (to, rate)) (entered_in-append xs ys)
entered_in-append (prepare_transition from to ∷ xs) ys = entered_in-append xs ys
entered_in-append (run_complete ∷ xs) ys = entered_in-append xs ys

-- The events of a channel.
abbrev pub events_of : List ControllerMessage → List PhaseEvent
events_of msgs = (inbound (map some msgs)).events

abbrev phase_or : String → Option Entered → String
phase_or other none = other
phase_or other (some e) = e.phase

abbrev rate_or : ℤ → Option Entered → ℤ
rate_or other none = other
rate_or other (some e) = e.rate

-- The wait uses up the first transition, and what comes before it.
pub entered_in-wait_for_transition :
    (now : ℕ) (events : List PhaseEvent) (e : Entered) (rest : List PhaseEvent)
    → wait_for_transition now events ≡ (some e, rest)
    → entered_in events ≡ (e.phase, e.rate) ∷ entered_in rest
unfolding wait_for_transition
entered_in-wait_for_transition now [] e rest h = cc
entered_in-wait_for_transition now (prepare_transition from to ∷ events) e rest h =
    entered_in-wait_for_transition now events e rest h
entered_in-wait_for_transition now (run_complete ∷ events) e rest h = cc
entered_in-wait_for_transition now (transition from to time rate ∷ events) e rest h =
    let to_eq : to ≡ e.phase = ap (λ r. phase_or to r.0) h in
    let rate_eq : rate ≡ e.rate = ap (λ r. rate_or rate r.0) h in
    let left : events ≡ rest = ap (λ (r : Option Entered × List PhaseEvent). r.1) h in
    rw (to_eq, rate_eq, left) refl

entered_in-phase_messages :
    (clock : ℕ) (mode : String) (previous : Option PhaseSpec) (phase : PhaseSpec)
    (rest : List ControllerMessage)
    → entered_in (events_of (phase_messages clock mode previous phase ++ rest))
      ≡ (phase.name, rate_for phase mode) ∷ entered_in (events_of rest)
unfolding inbound
entered_in-phase_messages clock mode none phase rest = refl
entered_in-phase_messages clock mode (some p) phase rest = refl

module _ (channel : ℕ) (mode : String) (path : Option String) (around : Surroundings)
    (steady : IsSteady channel mode around) where
  -- The messages and then the end of the run enter the phases `ps`.
  abbrev Enters : List PhaseSpec → List ControllerMessage → Type 0
  Enters ps msgs =
      entered_in (events_of (msgs ++ ControllerMessage.run_complete ∷ []))
      ≡ map (λ (p : PhaseSpec). (p.name, rate_for p mode)) ps

  Enters-phase :
      (clock : ℕ) (previous : Option PhaseSpec) (phase : PhaseSpec) (ps : List PhaseSpec)
      (msgs : List ControllerMessage)
      → Enters ps msgs
      → Enters (phase ∷ ps) (phase_messages clock mode previous phase ++ msgs)
  Enters-phase clock previous phase ps msgs h =
      ap (λ l. entered_in (events_of l))
        (append_assoc (phase_messages clock mode previous phase) msgs
          (ControllerMessage.run_complete ∷ []))
      ∙ entered_in-phase_messages clock mode previous phase _
      ∙ ap (◌∷◌ (phase.name, rate_for phase mode)) h

  sent-Enters :
      (resume : ℕ) (phases : List PhaseSpec) (i : ℕ) (previous : Option PhaseSpec)
      → Enters
          (drop (resume - i) phases)
          (sent channel mode path around steady resume i previous phases)
  sent-Enters resume [] i previous =
      unfold run_phases in
      unfold inbound in
      ap (map (λ (p : PhaseSpec). (p.name, rate_for p mode))) (sym (drop-nil (resume - i)))
  sent-Enters resume (phase ∷ rest) i previous =
      let later = sent-Enters resume rest (i + 1) (some phase) in
      elim (Bool-cases (ltb i resume)) [
        | inl early ↦
            let d : resume - i ≡ suc (resume - (i + 1)) = ground arith in
            subst
              (λ n.
                Enters (drop n (phase ∷ rest))
                  (sent channel mode path around steady resume i previous (phase ∷ rest)))
              (sym d)
              (subst (Enters (drop (resume - (i + 1)) rest))
                (sym (sent-skip channel mode path around steady resume i previous phase rest early))
                later)
        | inr due ↦
            let d : resume - i ≡ 0 = ground arith in
            let d' : resume - (i + 1) ≡ 0 = ground arith in
            subst
              (λ n.
                Enters (drop n (phase ∷ rest))
                  (sent channel mode path around steady resume i previous (phase ∷ rest)))
              (sym d)
              (subst (Enters (phase ∷ rest))
                (sym (sent-run channel mode path around steady resume i previous phase rest due))
                (Enters-phase (around.clock i) previous phase rest
                  (sent channel mode path around steady resume (i + 1) (some phase) rest)
                  (subst
                    (λ n.
                      Enters (drop n rest)
                        (sent channel mode path around steady resume (i + 1) (some phase) rest))
                    d' later)))
      ]

  -- The events of the channel enter the phases that are not skipped, in order and once each.
  pub entered_in-run_timeline :
      (resume : ℕ) (phases : List PhaseSpec)
      → entered_in (events_of (messages_to channel (run_timeline path around resume phases)))
        ≡ map (λ (p : PhaseSpec). (p.name, rate_for p mode)) (drop resume phases)
  entered_in-run_timeline resume phases =
      let e = messages_to-run_timeline channel mode path around steady resume phases in
      let zero_off : resume - 0 ≡ resume = omega arith in
      ap (λ l. entered_in (events_of l)) e
      ∙ sent-Enters resume phases 0 none
      ∙ ap (λ n. map (λ (p : PhaseSpec). (p.name, rate_for p mode)) (drop n phases)) zero_off
