-- ===== src/Traffic/Sampler.antt =====
-- src/application/traffic_sampler.rs, less the file that keeps the history. The five accumulators and
-- the five charts are records of five fields; instants are in milliseconds.
use unetic_core.Prelude.{
  ℕ, ◌+◌, ◌-◌, Bool, true, false, Option, none, some, List, leb, ◌==◌, nat_eq, if◌then◌else◌,
}
use unetic_core.Domain.Traffic.{
  TrafficBytes, TrafficCounters, TrafficPoint, TrafficSource, TrafficState, no_bytes, add_bytes,
  saturate, rate, push_point,
}

pub record BucketAccumulator : Type 0 where
  pub bytes : TrafficBytes
  pub elapsed_ms : ℕ

abbrev pub empty_bucket : BucketAccumulator
empty_bucket = record { bytes = no_bytes; elapsed_ms = 0 }

pub record Buckets : Type 0 where
  pub one_minute : BucketAccumulator
  pub fifteen_minutes : BucketAccumulator
  pub one_hour : BucketAccumulator
  pub twenty_four_hours : BucketAccumulator
  pub seven_days : BucketAccumulator

abbrev pub empty_buckets : Buckets
empty_buckets = record {
  one_minute = empty_bucket;
  fifteen_minutes = empty_bucket;
  one_hour = empty_bucket;
  twenty_four_hours = empty_bucket;
  seven_days = empty_bucket;
}

pub record TrafficSampler : Type 0 where
  pub previous : Option TrafficCounters
  pub sampled_at : Option ℕ
  pub wan_buckets : Buckets
  pub lan_buckets : Buckets
  pub all_buckets : Buckets

abbrev pub new_sampler : TrafficSampler
new_sampler = record {
  previous = none;
  sampled_at = none;
  wan_buckets = empty_buckets;
  lan_buckets = empty_buckets;
  all_buckets = empty_buckets;
}

unfoldable pub delta : TrafficBytes → TrafficBytes → TrafficBytes
delta previous current = record { rx = current.rx - previous.rx; tx = current.tx - previous.tx }

-- One turn of the loop in `update_source`.
unfoldable pub update_bucket :
    ℕ
    → TrafficBytes
    → ℕ
    → ℕ
    → BucketAccumulator
    → List TrafficPoint
    → BucketAccumulator × List TrafficPoint
update_bucket bucket_ms bytes elapsed at bucket points =
    let filled : BucketAccumulator = record {
      bytes = add_bytes bucket.bytes bytes;
      elapsed_ms = saturate (bucket.elapsed_ms + elapsed);
    } in
    let mean = rate filled.bytes filled.elapsed_ms in
    if leb bucket_ms filled.elapsed_ms
    then (
      empty_bucket,
      push_point points (record { at_ms = at; rx_kbps = mean.rx_kbps; tx_kbps = mean.tx_kbps }),
    )
    else (filled, points)

unfoldable pub update_source :
    TrafficSource → TrafficBytes → ℕ → ℕ → Buckets → TrafficSource × Buckets
unfolding update_bucket
update_source source bytes elapsed at b =
    let c = source.charts in
    let a1 = update_bucket 1_000 bytes elapsed at b.one_minute c.one_minute in
    let a2 = update_bucket 15_000 bytes elapsed at b.fifteen_minutes c.fifteen_minutes in
    let a3 = update_bucket 60_000 bytes elapsed at b.one_hour c.one_hour in
    let a4 = update_bucket 1_440_000 bytes elapsed at b.twenty_four_hours c.twenty_four_hours in
    let a5 = update_bucket 10_080_000 bytes elapsed at b.seven_days c.seven_days in
    (
      record {
        realtime = rate bytes elapsed;
        charts = record {
          one_minute = a1.1;
          fifteen_minutes = a2.1;
          one_hour = a3.1;
          twenty_four_hours = a4.1;
          seven_days = a5.1;
        };
      },
      record {
        one_minute = a1.0;
        fifteen_minutes = a2.0;
        one_hour = a3.0;
        twenty_four_hours = a4.0;
        seven_days = a5.0;
      },
    )

abbrev elapsed_since : ℕ → Option ℕ → ℕ
elapsed_since now none = 0
elapsed_since now (some at) = saturate (now - at)

unfoldable pub update_sources :
    TrafficBytes
    → TrafficBytes
    → Bool
    → ℕ
    → ℕ
    → TrafficSampler
    → TrafficState
    → TrafficSampler × TrafficState
unfolding update_source
update_sources wan_delta lan_delta hw_offload elapsed at sampler state =
    let w = update_source state.wan wan_delta elapsed at sampler.wan_buckets in
    let l = update_source state.lan.source lan_delta elapsed at sampler.lan_buckets in
    let a =
      update_source state.all (add_bytes wan_delta lan_delta) elapsed at sampler.all_buckets in
    (
      record sampler { wan_buckets = w.1; lan_buckets = l.1; all_buckets = a.1 },
      record {
        wan = w.0;
        lan = record { hw_offload_enabled = hw_offload; source = l.0 };
        all = a.0;
      },
    )

-- `sample` after its test of the counters that came before.
unfoldable pub sample_after :
    Option TrafficCounters
    → ℕ
    → ℕ
    → TrafficCounters
    → Bool
    → TrafficSampler
    → TrafficState
    → Bool × (TrafficSampler × TrafficState)
unfolding update_sources delta
sample_after none at elapsed current hw_offload sampler state =
    (false, (sampler, record state { lan = record state.lan { hw_offload_enabled = hw_offload } }))
sample_after (some previous) at elapsed current hw_offload sampler state =
    if elapsed == 0 then (false, (sampler, state)) else (
      true,
      update_sources (delta previous.wan current.wan) (delta previous.lan current.lan) hw_offload
          elapsed at sampler state,
    )

-- `sample`, at the instant `now` and the time `at` of the wall clock, and whether the state changed.
unfoldable pub sample :
    ℕ
    → ℕ
    → TrafficCounters
    → Bool
    → TrafficSampler
    → TrafficState
    → Bool × (TrafficSampler × TrafficState)
unfolding sample_after
sample now at current hw_offload sampler state =
    sample_after sampler.previous at (elapsed_since now sampler.sampled_at) current hw_offload
      (record sampler { previous = some current; sampled_at = some now }) state
