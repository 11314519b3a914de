-- ===== src/Worker/Ingest/Accounts.antt =====
-- The accounts of the events of an ingest worker.
use incident_bench.Base.{
  ℕ, suc, ◌+◌, ◌<◌, ◌^◌, Bool, true, false, ◌||◌, Option, none, some, List, [], ◌∷◌, ◌++◌, length,
  All, All-append, if◌then◌else◌, as_i64-small, as_u64, max_zero, add_u64, ◌≡◌, refl, length-append,
  arith, F64,
}
use incident_bench.Metrics.{LatencyDistribution}
use incident_bench.Metrics.Compression.{latency_distribution_from_values-counts}
use incident_bench.Worker.{
  Offer, Turned, continued, ended, panicked, total_of, total_of-append, is_end,
}
use incident_bench.Worker.Ingest.{IngestWorker, IngestTurn, emit, count_event}

module _ {F : Type 0} where
  -- The turns up to the one that ends the loop: each makes one event.
  abbrev pub events : List (IngestTurn F) → ℕ
  events [] = 0
  events (t ∷ ts) = let more = events ts in if is_end t.poll then 0 else 1 + more

  -- 1 where Kafka takes the turn's event at none of three attempts.
  abbrev pub missed : IngestTurn F → ℕ
  missed t = if t.delivered 0 || t.delivered 1 || t.delivered 2 then 0 else 1

  -- The events that are never delivered.
  abbrev pub lost : List (IngestTurn F) → ℕ
  lost [] = 0
  lost (t ∷ ts) = let more = lost ts in if is_end t.poll then 0 else missed t + more

  abbrev latencies : Option (LatencyDistribution F) → ℕ
  latencies none = 0
  latencies (some d) = max_zero d.count

  -- Each event of a snapshot was acknowledged or failed, and each that was acknowledged has a latency;
  -- it is one of an ingest worker, with counts that are the same as `u64`.
  abbrev pub IsBalanced : Offer F → Type 0
  IsBalanced o =
      let s = o.snapshot in
      (max_zero s.events_acknowledged + max_zero s.events_failed ≡ max_zero s.events_produced)
      × (latencies s.kafka_produce_latency ≡ max_zero s.events_acknowledged)
      × (s.worker_mode ≡ "ingest")
      × (as_u64 s.events_produced ≡ max_zero s.events_produced)
      × (as_u64 s.events_failed ≡ max_zero s.events_failed)

  -- The same of the second that is under way.
  pub record IsCounted (w : IngestWorker F) : Type 0 where
    pub produced : w.events_acked + w.events_failed ≡ w.events_produced
    pub timed : length w.produce_latencies ≡ w.events_acked
    pub small : w.events_produced < 2 ^ 63

  -- Behind `n` more events, `m` of them lost, the snapshots and the second under way have them all.
  pub record Accounts (n m : ℕ) (w : IngestWorker F) (out : List (Offer F)) (w' : IngestWorker F)
      : Type 0 where
    pub produced :
        total_of (λ s. s.events_produced) out + w'.events_produced ≡ w.events_produced + n
    pub failed : total_of (λ s. s.events_failed) out + w'.events_failed ≡ w.events_failed + m
    pub balanced : All IsBalanced out
    pub counted : IsCounted w'

  abbrev pub Conserves : ℕ → ℕ → IngestWorker F → Turned F (IngestWorker F) → Type 0
  Conserves n m w (continued out w') = Accounts n m w out w'
  Conserves n m w (ended out w') = Accounts n m w out w'
  Conserves n m w panicked = ⊥

module _ {F : Type 0} ⦃fl : F64 F⦄ where
  pub emit-Accounts :
      (due : Bool) (t : IngestTurn F) (w : IngestWorker F)
      → IsCounted w
      → Accounts 0 0 w (emit due t w).0 (emit due t w).1
  unfolding emit
  emit-Accounts false t w c = record {
    produced = omega arith;
    failed = omega arith;
    balanced = tt;
    counted = c;
  }
  emit-Accounts true t w c =
      let p = as_i64-small w.events_produced c.small in
      let a = as_i64-small w.events_acked (omega (arith, c.produced, c.small)) in
      let f = as_i64-small w.events_failed (omega (arith, c.produced, c.small)) in
      let d =
        (latency_distribution_from_values-counts w.produce_latencies
          (omega (arith, c.produced, c.small, c.timed))).1 in
      record {
        produced = rw p (omega arith);
        failed = rw f (omega arith);
        balanced = (
          (
            rw (p, a, f) c.produced,
            rw (a, d) c.timed,
            refl,
            rw p (omega (arith, c.small)),
            rw f (omega (arith, c.produced, c.small)),
          ),
          tt,
        );
        counted = record { produced = refl; timed = refl; small = omega arith };
      }

  pub count_event-Accounts :
      (taken : Bool) (latency : F) (w : IngestWorker F)
      → IsCounted w
      → suc w.events_produced < 2 ^ 63
      → Accounts 1 (if taken then 0 else 1) w [] (count_event taken latency w)
  unfolding count_event add_u64
  count_event-Accounts true latency w c h = record {
    produced = omega arith;
    failed = omega arith;
    balanced = tt;
    counted = record {
      produced = omega (arith, c.produced);
      timed = omega (arith, c.timed, c.produced, length-append w.produce_latencies (latency ∷ []));
      small = omega arith;
    };
  }
  count_event-Accounts false latency w c h = record {
    produced = omega (arith, c.produced);
    failed = omega (arith, c.produced);
    balanced = tt;
    counted = record { produced = omega (arith, c.produced); timed = c.timed; small = omega arith };
  }

  -- A change that leaves the counts of the second alone.
  pub kept-Accounts :
      (w w' : IngestWorker F)
      → w'.events_produced ≡ w.events_produced
      → w'.events_acked ≡ w.events_acked
      → w'.events_failed ≡ w.events_failed
      → w'.produce_latencies ≡ w.produce_latencies
      → IsCounted w
      → Accounts 0 0 w [] w'
  kept-Accounts w w' p a f l c = record {
    produced = omega (arith, p);
    failed = omega (arith, f);
    balanced = tt;
    counted = record {
      produced = omega (arith, p, a, f, c.produced);
      timed = rw l (omega (arith, c.timed, a));
      small = omega (arith, c.small, p);
    };
  }

  pub Accounts-trans :
      (n m n' m' : ℕ) (w : IngestWorker F) (out : List (Offer F)) (v : IngestWorker F)
      (more : List (Offer F)) (w' : IngestWorker F)
      → Accounts n m w out v
      → Accounts n' m' v more w'
      → Accounts (n + n') (m + m') w (out ++ more) w'
  Accounts-trans n m n' m' w out v more w' a b = record {
    produced =
        omega (arith, a.produced, b.produced, total_of-append (λ s. s.events_produced) out more);
    failed = omega (arith, a.failed, b.failed, total_of-append (λ s. s.events_failed) out more);
    balanced = All-append IsBalanced out more a.balanced b.balanced;
    counted = b.counted;
  }

  -- Before it, nothing is counted; after it, no snapshot is made.
  pub Accounts-then :
      (n m : ℕ) (w : IngestWorker F) (out : List (Offer F)) (v w' : IngestWorker F)
      → Accounts 0 0 w out v
      → Accounts n m v [] w'
      → Accounts n m w out w'
  Accounts-then n m w out v w' a b = record {
    produced = omega (arith, a.produced, b.produced);
    failed = omega (arith, a.failed, b.failed);
    balanced = a.balanced;
    counted = b.counted;
  }
