-- ===== src/Worker/Phases.antt =====
-- The phases that the workers go through: the first by `wait_for_transition`, the others by the events
-- that the polls of their loops give.
use incident_bench.Base.{
  ℕ, ◌≡◌, refl, sym, ap, ◌∙◌, String, true, false, Option, none, some, List, [], ◌∷◌, ◌++◌, map,
  drop, length, get_elem?, All, ℤ,
}
use mathlib.Core.List.{append-nil}
use incident_bench.PhaseController.{PhaseSpec}
use incident_bench.PhaseController.Timeline.{Surroundings, rate_for, run_timeline}
use incident_bench.Barrier.{PhaseEvent, Entered, wait_for_transition}
use incident_bench.Barrier.Messages.{messages_to, IsSteady}
use incident_bench.Barrier.Transitions.{
  entered_in, entered_in-append, events_of, entered_in-wait_for_transition, entered_in-run_timeline,
}
use incident_bench.Worker.{
  Poll, idle, received, Offer, Turned, continued, ended, panicked, run_turns, is_end, with_offers,
}

-- What a poll gives.
abbrev pub heard : Poll → List PhaseEvent
heard idle = []
heard (received none) = []
heard (received (some e)) = e ∷ []

-- The phase and the rate behind some more transitions.
abbrev pub latest : String × ℤ → List (String × ℤ) → String × ℤ
latest a [] = a
latest a (b ∷ bs) = latest b bs

latest-append :
    (a : String × ℤ) (xs ys : List (String × ℤ)) → latest a (xs ++ ys) ≡ latest (latest a xs) ys
latest-append a [] ys = refl
latest-append a (x ∷ xs) ys = latest-append x xs ys

get_elem?-latest :
    (a : String × ℤ) (xs ys : List (String × ℤ))
    → get_elem? ((a ∷ xs) ++ ys) (length xs) ≡ some (latest a xs)
get_elem?-latest a [] ys = refl
get_elem?-latest a (x ∷ xs) ys = get_elem?-latest x xs ys

-- A turn enters the phase that its poll hears of, if any; `Is` is what a worker is in a phase.
abbrev pub Moves :
    {F S : Type 0} → (String × ℤ → S → Type 0) → Poll → String × ℤ → Turned F S → Type 0
Moves Is p a (continued out s) = (is_end p ≡ false) × Is (latest a (entered_in (heard p))) s
Moves Is p a (ended out s) = (is_end p ≡ true) × Is (latest a (entered_in (heard p))) s
Moves Is p a panicked = ⊥

-- What turns hear, up to the one that ends the loop.
abbrev pub heard_by : {T : Type 0} → (T → Poll) → List T → List PhaseEvent
heard_by poll [] = []
heard_by poll (t ∷ ts) =
    let more = heard_by poll ts in
    heard (poll t) ++ (elim (is_end (poll t)) [ true ↦ [] | false ↦ more ])

-- At the end of a run the worker is in the phase `a`; there is no panic.
abbrev pub EndsIn : {F S : Type 0} → (String × ℤ → S → Type 0) → String × ℤ → Turned F S → Type 0
EndsIn Is a (continued out s) = Is a s
EndsIn Is a (ended out s) = Is a s
EndsIn Is a panicked = ⊥

pub units : {T : Type 0} (ts : List T) → All (λ _. Unit {0}) ts
units [] = tt
units (t ∷ ts) = (tt, units ts)

-- The loop of a worker, by what a worker is in a phase.
module _ {F T S : Type 0} (step : T → S → Turned F S) (poll : T → Poll)
    (Is : String × ℤ → S → Type 0) where
  with_offers-EndsIn :
      (a : String × ℤ) (out : List (Offer F)) (r : Turned F S)
      → EndsIn Is a r
      → EndsIn Is a (with_offers out r)
  unfolding with_offers
  with_offers-EndsIn a out (continued more s) h = h
  with_offers-EndsIn a out (ended more s) h = h
  with_offers-EndsIn a out panicked h = h

  module _ (Can : T → Type 0)
      (moves : (a : String × ℤ) (t : T) (s : S)
        → Is a s
        → Can t
        → Moves Is (poll t) a (step t s)) where
    pub run_turns-EndsIn :
        (ts : List T) (a : String × ℤ) (s : S)
        → Is a s
        → All Can ts
        → EndsIn Is (latest a (entered_in (heard_by poll ts))) (run_turns step ts s)
    unfolding run_turns
    run_turns-EndsIn [] a s h cs = h
    run_turns-EndsIn (t ∷ ts) a s h (c, cs) =
        elim (step t s)
            as (λ r.
              Moves Is (poll t) a r
              → EndsIn Is (latest a (entered_in (heard_by poll (t ∷ ts)))) (elim r [
                | continued out s' ↦ with_offers out (run_turns step ts s')
                | ended out s' ↦ ended out s'
                | panicked ↦ panicked
              ])) [
                | continued out v ↦ λ (going, m).
                    rw
                      (
                        going,
                        entered_in-append (heard (poll t)) (heard_by poll ts),
                        latest-append a (entered_in (heard (poll t)))
                            (entered_in (heard_by poll ts)),
                      )
                      (with_offers-EndsIn _ out _ (run_turns-EndsIn ts _ v m cs))
                | ended out v ↦ λ (over, m). rw (over, append-nil (heard (poll t))) m
                | panicked ↦ λ m. m
              ]
          (moves a t s h c)

module _ (channel : ℕ) (mode : String) (path : Option String) (around : Surroundings)
    (steady : IsSteady channel mode around) (resume : ℕ) (phases : List PhaseSpec) where
  -- The events that the timeline sends to the channel.
  abbrev pub timeline_events : List PhaseEvent
  timeline_events = events_of (messages_to channel (run_timeline path around resume phases))

  -- The phases of the timeline that are not skipped, each with the rate of the mode.
  abbrev pub phases_ahead : List (String × ℤ)
  phases_ahead = map (λ (p : PhaseSpec). (p.name, rate_for p mode)) (drop resume phases)

  -- Behind a first phase and some more events, the phase is the next one ahead.
  pub in_order :
      (now : ℕ) (e : Entered) (rest before after : List PhaseEvent)
      → wait_for_transition now timeline_events ≡ (some e, rest)
      → before ++ after ≡ rest
      → get_elem? phases_ahead (length (entered_in before))
        ≡ some (latest (e.phase, e.rate) (entered_in before))
  in_order now e rest before after h split =
      let all : phases_ahead ≡ ((e.phase, e.rate) ∷ entered_in before) ++ entered_in after =
        sym (entered_in-run_timeline channel mode path around steady resume phases)
        ∙ entered_in-wait_for_transition now timeline_events e rest h
        ∙ ap (λ l. (e.phase, e.rate) ∷ entered_in l) (sym split)
        ∙ ap (◌∷◌ (e.phase, e.rate)) (entered_in-append before after) in
      rw all (get_elem?-latest (e.phase, e.rate) (entered_in before) (entered_in after))
