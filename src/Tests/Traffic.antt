-- ===== src/Tests/Traffic.antt =====
-- The traffic of the router.
use unetic_core.Prelude.{◌≡◌, arith, ℕ, zero, suc, true, List, Option, [], ◌∷◌}
use unetic_core.Domain.Traffic.{
  TrafficCounters, TrafficCharts, TrafficPoint, TrafficSource, TrafficState,
}
use unetic_core.Traffic.Sampler.{new_sampler, sample, TrafficSampler}
use unetic_core.Traffic.Charts.{
  AreBounded, IsBounded, sample-AreBounded, push_all, last_sixty, push_all-last_sixty,
}

abbrev no_charts : TrafficCharts
no_charts = record {
  one_minute = [];
  fifteen_minutes = [];
  one_hour = [];
  twenty_four_hours = [];
  seven_days = [];
}

abbrev quiet : TrafficSource
quiet = record { realtime = record { rx_kbps = 0; tx_kbps = 0 }; charts = no_charts }

abbrev silence : TrafficState
silence = record {
  wan = quiet;
  lan = record { hw_offload_enabled = true; source = quiet };
  all = quiet;
}

abbrev counters : TrafficCounters
counters = record {
  wan = record { rx = 2_024; tx = 3_024 };
  lan = record { rx = 5_048; tx = 6_048 };
}

abbrev running : TrafficSampler
running = record new_sampler { previous = Option.some counters; sampled_at = Option.some 0 }

quiet-IsBounded : IsBounded quiet new_sampler.wan_buckets
quiet-IsBounded = record {
  one_minute = (omega arith, omega arith);
  fifteen_minutes = (omega arith, omega arith);
  one_hour = (omega arith, omega arith);
  twenty_four_hours = (omega arith, omega arith);
  seven_days = (omega arith, omega arith);
}

sample-AreBounded_example :
    AreBounded (sample 1_000 1_700_000_000_000 counters true running silence).1
sample-AreBounded_example =
    sample-AreBounded 1_000 1_700_000_000_000 counters true running silence
      (quiet-IsBounded, quiet-IsBounded, quiet-IsBounded)

abbrev ticks : ℕ → List TrafficPoint
ticks zero = []
ticks (suc n) = record { at_ms = n; rx_kbps = n; tx_kbps = 0 } ∷ ticks n

push_all-last_sixty_example : push_all [] (ticks 61) ≡ last_sixty (ticks 61)
push_all-last_sixty_example = push_all-last_sixty (ticks 61)
