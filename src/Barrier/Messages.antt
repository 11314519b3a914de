-- ===== src/Barrier/Messages.antt =====
-- What the controller's timeline sends to the channel of one worker.
use mathlib.Core.Path.{ap₂}
use mathlib.Core.List.{append-nil, append_assoc}
use incident_bench.Base.{
  ℕ, ◌+◌, ◌≡◌, refl, sym, ap, ◌∙◌, String, true, false, Option, none, some, List, [], ◌∷◌, ◌++◌,
  map, ℤ, arith, ltb, ◌==◌, if◌then◌else◌,
}
use incident_bench.PhaseController.{PhaseSpec, Workers}
use incident_bench.PhaseController.Timeline.{
  ControllerMessage, Action, checkpoint, enter, send, sleep_ms, complete, remove_checkpoint,
  Surroundings, broadcast, rate_for, send_transitions, transition_time, write_checkpoint,
  send_prepare, name_before, run_phase, run_phases, clean_up, run_timeline,
}

-- The messages that are sent to a channel, in order.
abbrev message_to : ℕ → Action → List ControllerMessage
message_to channel (send c m) = if c == channel then m ∷ [] else []
message_to channel (checkpoint path i) = []
message_to channel (enter i) = []
message_to channel (sleep_ms n) = []
message_to channel complete = []
message_to channel (remove_checkpoint path) = []

abbrev pub messages_to : ℕ → List Action → List ControllerMessage
messages_to channel [] = []
messages_to channel (a ∷ rest) = message_to channel a ++ messages_to channel rest

-- The modes of the workers that are registered with a channel.
abbrev pub modes_on : ℕ → Workers → List String
modes_on channel [] = []
modes_on channel ((id, (mode, c)) ∷ ws) =
    (if c == channel then mode ∷ [] else []) ++ modes_on channel ws

-- One worker holds the channel, with the given mode, whenever the conductor looks.
pub record IsSteady (channel : ℕ) (mode : String) (around : Surroundings) : Type 0 where
  pub at_prepare : (i : ℕ) → modes_on channel (around.at_prepare i) ≡ mode ∷ []
  pub at_transition : (i : ℕ) → modes_on channel (around.at_transition i) ≡ mode ∷ []
  pub at_end : modes_on channel around.at_end ≡ mode ∷ []

messages_to-append :
    (channel : ℕ) (xs ys : List Action)
    → messages_to channel (xs ++ ys) ≡ messages_to channel xs ++ messages_to channel ys
messages_to-append channel [] ys = refl
messages_to-append channel (x ∷ xs) ys =
    ap (◌++◌ (message_to channel x)) (messages_to-append channel xs ys)
    ∙ sym (append_assoc (message_to channel x) (messages_to channel xs) (messages_to channel ys))

messages_to-broadcast :
    (channel : ℕ) (m : ControllerMessage) (ws : Workers)
    → messages_to channel (broadcast m ws) ≡ map (λ _. m) (modes_on channel ws)
unfolding broadcast
messages_to-broadcast channel m [] = refl
messages_to-broadcast channel m ((id, (mode, c)) ∷ ws) =
    ground (arith, messages_to-broadcast channel m ws)

messages_to-send_transitions :
    (channel : ℕ) (from : String) (phase : PhaseSpec) (time : ℤ) (ws : Workers)
    → messages_to channel (send_transitions from phase time ws)
      ≡ map
          (λ mode. ControllerMessage.phase_transition from phase.name time (rate_for phase mode))
          (modes_on channel ws)
unfolding send_transitions
messages_to-send_transitions channel from phase time [] = refl
messages_to-send_transitions channel from phase time ((id, (mode, c)) ∷ ws) =
    ground (arith, messages_to-send_transitions channel from phase time ws)

abbrev pub phase_messages : ℕ → String → Option PhaseSpec → PhaseSpec → List ControllerMessage
phase_messages now mode none phase =
    ControllerMessage.phase_transition "" phase.name (transition_time now) (rate_for phase mode)
    ∷ []
phase_messages now mode (some p) phase =
    ControllerMessage.prepare_transition p.name phase.name
    ∷ ControllerMessage.phase_transition p.name phase.name (transition_time now)
        (rate_for phase mode)
    ∷ []

abbrev prepare_messages : Option PhaseSpec → PhaseSpec → List ControllerMessage
prepare_messages none phase = []
prepare_messages (some p) phase = ControllerMessage.prepare_transition p.name phase.name ∷ []

messages_to-write_checkpoint :
    (channel : ℕ) (path : Option String) (i : ℕ)
    → messages_to channel (write_checkpoint path i) ≡ []
unfolding write_checkpoint
messages_to-write_checkpoint channel none i = refl
messages_to-write_checkpoint channel (some p) i = refl

messages_to-clean_up :
    (channel : ℕ) (path : Option String) → messages_to channel (clean_up path) ≡ []
unfolding clean_up
messages_to-clean_up channel none = refl
messages_to-clean_up channel (some p) = refl

module _ (channel : ℕ) (mode : String) (path : Option String) (around : Surroundings)
    (steady : IsSteady channel mode around) where
  messages_to-send_prepare :
      (i : ℕ) (previous : Option PhaseSpec) (phase : PhaseSpec)
      → messages_to channel (send_prepare around i previous phase) ≡ prepare_messages previous phase
  unfolding send_prepare
  messages_to-send_prepare i none phase = refl
  messages_to-send_prepare i (some p) phase =
      messages_to-append channel
        (broadcast (ControllerMessage.prepare_transition p.name phase.name) (around.at_prepare i)) _
      ∙ append-nil _
      ∙ messages_to-broadcast channel _ (around.at_prepare i)
      ∙ ap (map (λ _. ControllerMessage.prepare_transition p.name phase.name)) (steady.at_prepare i)

  phase_messages-split :
      (now : ℕ) (previous : Option PhaseSpec) (phase : PhaseSpec)
      → prepare_messages previous phase
          ++ ControllerMessage.phase_transition
              (name_before previous)
              phase.name
              (transition_time now)
              (rate_for phase mode)
            ∷ []
        ≡ phase_messages now mode previous phase
  phase_messages-split now none phase = refl
  phase_messages-split now (some p) phase = refl

  messages_to-run_phase :
      (i : ℕ) (previous : Option PhaseSpec) (phase : PhaseSpec)
      → messages_to channel (run_phase path around i previous phase)
        ≡ phase_messages (around.clock i) mode previous phase
  unfolding run_phase
  messages_to-run_phase i previous phase =
      messages_to-append channel (write_checkpoint path i) _
      ∙ ap₂ (◌++◌) (messages_to-write_checkpoint channel path i) (
          messages_to-append channel (send_prepare around i previous phase) _
          ∙ ap₂ (◌++◌) (messages_to-send_prepare i previous phase) (
              messages_to-append channel
                (send_transitions (name_before previous) phase (transition_time (around.clock i))
                  (around.at_transition i))
                _
              ∙ append-nil _
              ∙ messages_to-send_transitions channel (name_before previous) phase
                  (transition_time (around.clock i)) (around.at_transition i)
              ∙ ap
                  (map (λ m.
                    ControllerMessage.phase_transition (name_before previous) phase.name
                      (transition_time (around.clock i)) (rate_for phase m)))
                  (steady.at_transition i)))
      ∙ phase_messages-split (around.clock i) previous phase

  abbrev pub sent : ℕ → ℕ → Option PhaseSpec → List PhaseSpec → List ControllerMessage
  sent resume i previous phases =
      messages_to channel (run_phases path around resume i previous phases)

  pub sent-skip :
      (resume i : ℕ) (previous : Option PhaseSpec) (phase : PhaseSpec) (rest : List PhaseSpec)
      → ltb i resume ≡ true
      → sent resume i previous (phase ∷ rest) ≡ sent resume (i + 1) (some phase) rest
  unfolding run_phases
  sent-skip resume i previous phase rest h = rw h

  pub sent-run :
      (resume i : ℕ) (previous : Option PhaseSpec) (phase : PhaseSpec) (rest : List PhaseSpec)
      → ltb i resume ≡ false
      → sent resume i previous (phase ∷ rest)
        ≡ phase_messages (around.clock i) mode previous phase
          ++ sent resume (i + 1) (some phase) rest
  unfolding run_phases
  sent-run resume i previous phase rest h = rw h (
      messages_to-append channel (run_phase path around i previous phase) _
      ∙ ap (λ l. l ++ sent resume (i + 1) (some phase) rest)
          (messages_to-run_phase i previous phase))

  pub messages_to-run_timeline :
      (resume : ℕ) (phases : List PhaseSpec)
      → messages_to channel (run_timeline path around resume phases)
        ≡ sent resume 0 none phases ++ ControllerMessage.run_complete ∷ []
  unfolding run_timeline
  messages_to-run_timeline resume phases =
      messages_to-append channel (run_phases path around resume 0 none phases) _
      ∙ ap (◌++◌ (sent resume 0 none phases)) (
          messages_to-append channel (broadcast ControllerMessage.run_complete around.at_end) _
          ∙ ap₂ (◌++◌)
              (messages_to-broadcast channel ControllerMessage.run_complete around.at_end
                ∙ ap (map (λ _. ControllerMessage.run_complete)) steady.at_end)
              (messages_to-append channel (clean_up path) _
                ∙ append-nil _
                ∙ messages_to-clean_up channel path))
