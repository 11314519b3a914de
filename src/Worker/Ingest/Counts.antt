-- ===== src/Worker/Ingest/Counts.antt =====
-- What an ingest worker reports of its events.
use incident_bench.Base.{
  String, ℕ, suc, ◌+◌, ◌<◌, ◌^◌, Bool, true, false, ◌||◌, none, some, List, [], ◌∷◌, length, ◌≡◌,
  refl, arith, F64,
}
use incident_bench.Barrier.{prepare_transition, transition, run_complete}
use incident_bench.RateLimiter.{acquire}
use incident_bench.Worker.{
  Poll, idle, received, Offer, Turned, continued, ended, panicked, run_turns, is_end, with_offers,
}
use incident_bench.Worker.Ingest.{
  IngestWorker, IngestTurn, turn, after_poll, produce, send_event, enter_phase,
}
use incident_bench.Worker.Ingest.Accounts.{
  events, missed, lost, IsCounted, Accounts, Conserves, emit-Accounts, count_event-Accounts,
  kept-Accounts, Accounts-trans, Accounts-then,
}

-- One of three attempts, or none, delivers an event.
send_ok-or :
    (delivered : ℕ → Bool)
    → (send_event delivered).send_ok ≡ (delivered 0 || delivered 1 || delivered 2)
unfolding send_event
send_ok-or delivered = ground arith

module _ {F : Type 0} ⦃fl : F64 F⦄ where
  produce-Accounts :
      (t : IngestTurn F) (w : IngestWorker F)
      → IsCounted w
      → suc w.events_produced < 2 ^ 63
      → Accounts 1 (missed t) w [] (produce t w)
  unfolding produce
  produce-Accounts t w c h =
      let w1 : IngestWorker F = record w {
        rate_limiter = (acquire t.refill_at t.slept_until w.rate_limiter).limiter;
      } in
      let k = kept-Accounts w w1 refl refl refl refl c in
      rw (← send_ok-or t.delivered) (
        Accounts-then 1 _ w [] w1 _ k
          (count_event-Accounts (send_event t.delivered).send_ok t.latency_ms w1 k.counted h))

  enter_phase-Accounts :
      (to : String) (w : IngestWorker F) → IsCounted w → Accounts 0 0 w [] (enter_phase to w)
  unfolding enter_phase
  enter_phase-Accounts to w c = kept-Accounts w _ refl refl refl refl c

  -- A turn that does not end the loop makes one event.
  abbrev Turns : IngestTurn F → Bool → IngestWorker F → Turned F (IngestWorker F) → Type 0
  Turns t over w (continued out v) = (over ≡ false) × Accounts 1 (missed t) w out v
  Turns t over w (ended out v) = (over ≡ true) × Accounts 0 0 w out v
  Turns t over w panicked = ⊥

  after_poll-Turns :
      (poll : Poll) (t : IngestTurn F) (w : IngestWorker F) (out : List (Offer F))
      (v : IngestWorker F)
      → Accounts 0 0 w out v
      → suc v.events_produced < 2 ^ 63
      → Turns t (is_end poll) w (after_poll poll t out v)
  unfolding after_poll
  after_poll-Turns idle t w out v a h =
      (refl, Accounts-then 1 _ w out v _ a (produce-Accounts t v a.counted h))
  after_poll-Turns (received none) t w out v a h = (refl, a)
  after_poll-Turns (received (some run_complete)) t w out v a h = (refl, a)
  after_poll-Turns (received (some (prepare_transition _ _))) t w out v a h =
      (refl, Accounts-then 1 _ w out v _ a (produce-Accounts t v a.counted h))
  after_poll-Turns (received (some (transition _ to _ _))) t w out v a h =
      let e = enter_phase-Accounts to v a.counted in
      (
        refl,
        Accounts-then 1 _ w out v _ a (
            Accounts-then 1 _ v [] (enter_phase to v) _ e
              (produce-Accounts t (enter_phase to v) e.counted (omega (arith, e.produced, h)))),
      )

  turn-Turns :
      (t : IngestTurn F) (w : IngestWorker F)
      → IsCounted w
      → suc w.events_produced < 2 ^ 63
      → Turns t (is_end t.poll) w (turn t w)
  unfolding turn
  turn-Turns t w c h =
      let a = emit-Accounts t.second_over t w c in
      after_poll-Turns t.poll t w _ _ a (omega (arith, a.produced, h))

  with_offers-Conserves :
      (n m k j : ℕ) (w : IngestWorker F) (out : List (Offer F)) (v : IngestWorker F)
      (r : Turned F (IngestWorker F))
      → Accounts n m w out v
      → Conserves k j v r
      → Conserves (n + k) (m + j) w (with_offers out r)
  unfolding with_offers
  with_offers-Conserves n m k j w out v (continued more w') a c =
      Accounts-trans n m k j w out v more w' a c
  with_offers-Conserves n m k j w out v (ended more w') a c =
      Accounts-trans n m k j w out v more w' a c
  with_offers-Conserves n m k j w out v panicked a c = c

  -- No event is lost or counted twice on the way into the snapshots. Over any turns of the loop,
  -- from a second whose counts add up, with fewer than 2^63 events in all: the events of the
  -- snapshots offered to the channel and of the second under way are the events made, one for each
  -- turn before the loop ends; the failed ones are those that none of three attempts delivered; in
  -- each snapshot the acknowledged and the failed add up to the events, with one latency for each
  -- that was acknowledged; and the loop does not panic.
  pub events-Conserves :
      (ts : List (IngestTurn F)) (w : IngestWorker F)
      → IsCounted w
      → w.events_produced + length ts < 2 ^ 63
      → Conserves (events ts) (lost ts) w (run_turns turn ts w)
  unfolding run_turns
  events-Conserves [] w c h = kept-Accounts w w refl refl refl refl c
  events-Conserves (t ∷ ts) w c h =
      elim (turn t w)
          as (λ r.
            Turns t (is_end t.poll) w r
            → Conserves (events (t ∷ ts)) (lost (t ∷ ts)) w (elim r [
              | continued out s' ↦ with_offers out (run_turns turn ts s')
              | ended out s' ↦ ended out s'
              | panicked ↦ panicked
            ])) [
              | continued out v ↦ λ (going, a). rw going (
                  with_offers-Conserves 1 (missed t) (events ts) (lost ts) w out v _ a
                    (events-Conserves ts v a.counted (omega (arith, a.produced, h))))
              | ended out v ↦ λ (over, a). rw over a
              | panicked ↦ λ h. h
            ]
        (turn-Turns t w c (omega arith))
