-- ===== src/Traffic/Charts.antt =====
-- What the charts of the traffic hold.
use unetic_core.Prelude.{
  ℕ, suc, ◌-◌, ◌≤◌, ◌<◌, ◌≡◌, refl, sym, ap, ◌∙◌, arith, Bool, true, false, none, some, List, [],
  ◌∷◌, ◌++◌, length, length-append, nat_eq, zero, ℕ_discrete, ◌≢◌, Option, ◌==◌, if◌then◌else◌,
}
use unetic_core.Domain.Traffic.{
  TrafficBytes, TrafficCounters, TrafficPoint, TrafficState, TrafficSource, push_point,
  remove_first,
}
use unetic_core.Traffic.Sampler.{
  TrafficSampler, Buckets, BucketAccumulator, update_bucket, update_source, update_sources, sample,
  sample_after,
}

-- `points`, pushed one after another onto a chart
unfoldable pub push_all : List TrafficPoint → List TrafficPoint → List TrafficPoint
push_all chart [] = chart
push_all chart (point ∷ points) = push_all (push_point chart point) points

abbrev pub drop {ℓ} : {A : Type ℓ} → ℕ → List A → List A
drop zero xs = xs
drop (suc n) [] = []
drop (suc n) (x ∷ xs) = drop n xs

module _ {ℓ} {A : Type ℓ} where
  length-drop : (n : ℕ) (xs : List A) → length (drop n xs) ≡ length xs - n
  length-drop zero xs = omega arith
  length-drop (suc n) [] = omega arith
  length-drop (suc n) (x ∷ xs) = omega (arith, length-drop n xs)

  drop-append : (n : ℕ) (xs ys : List A) → n ≤ length xs → drop n (xs ++ ys) ≡ drop n xs ++ ys
  drop-append zero xs ys h = refl
  drop-append (suc n) [] ys h = ground (arith, h)
  drop-append (suc n) (x ∷ xs) ys h = drop-append n xs ys (omega (arith, h))

  remove_first-drop : (n : ℕ) (xs : List A) → remove_first (drop n xs) ≡ drop (suc n) xs
  remove_first-drop zero [] = refl
  remove_first-drop zero (x ∷ xs) = refl
  remove_first-drop (suc n) [] = refl
  remove_first-drop (suc n) (x ∷ xs) = remove_first-drop n xs

  append_nil : (xs : List A) → xs ++ [] ≡ xs
  append_nil [] = refl
  append_nil (x ∷ xs) = ap (λ l. x ∷ l) (append_nil xs)

  snoc_append : (xs : List A) (y : A) (zs : List A) → (xs ++ y ∷ []) ++ zs ≡ xs ++ y ∷ zs
  snoc_append [] y zs = refl
  snoc_append (x ∷ xs) y zs = ap (λ l. x ∷ l) (snoc_append xs y zs)

-- the last sixty of a list
abbrev pub last_sixty : List TrafficPoint → List TrafficPoint
last_sixty points = drop (length points - 60) points

push_full :
    (chart : List TrafficPoint) (p : TrafficPoint)
    → length chart ≡ 60
    → push_point chart p ≡ remove_first chart ++ p ∷ []
unfolding push_point
push_full chart p e = ground (arith, e)

push_room :
    (chart : List TrafficPoint) (p : TrafficPoint)
    → length chart ≢ 60
    → push_point chart p ≡ chart ++ p ∷ []
unfolding push_point
push_room chart p n = ground (arith, n)

push_last_sixty :
    (points : List TrafficPoint) (p : TrafficPoint)
    → push_point (last_sixty points) p ≡ last_sixty (points ++ p ∷ [])
push_last_sixty points p =
    let k = length points - 60 in
    let l = length-append points (p ∷ []) in
    let d = length-drop k points in
    elim (nat_eq.dec_eq (length (last_sixty points)) 60) [
      | yes e ↦
          let more : suc k ≡ length (points ++ p ∷ []) - 60 = omega (arith, d, e, l) in
          push_full (last_sixty points) p e
          ∙ ap (λ c. c ++ p ∷ []) (remove_first-drop k points)
          ∙ sym (drop-append (suc k) points (p ∷ []) (omega (arith, d, e)))
          ∙ ap (λ n. drop n (points ++ p ∷ [])) more
      | no n ↦
          let same : k ≡ length (points ++ p ∷ []) - 60 = omega (arith, d, n, l) in
          push_room (last_sixty points) p n
          ∙ sym (drop-append k points (p ∷ []) (omega arith))
          ∙ ap (λ n. drop n (points ++ p ∷ [])) same
    ]

push_all-last_sixty_lem :
    (before points : List TrafficPoint)
    → push_all (last_sixty before) points ≡ last_sixty (before ++ points)
unfolding push_all
push_all-last_sixty_lem before [] = ap last_sixty (sym (append_nil before))
push_all-last_sixty_lem before (p ∷ points) =
    ap (λ c. push_all c points) (push_last_sixty before p)
    ∙ push_all-last_sixty_lem (before ++ p ∷ []) points
    ∙ ap last_sixty (snoc_append before p points)

-- Points that are pushed onto an empty chart one after another: the chart holds the last sixty of them,
-- or all of them where there are fewer, in their order.
pub push_all-last_sixty : (points : List TrafficPoint) → push_all [] points ≡ last_sixty points
push_all-last_sixty points = push_all-last_sixty_lem [] points

length-push_point :
    (points : List TrafficPoint) (p : TrafficPoint)
    → length points ≤ 60
    → length (push_point points p) ≤ 60
unfolding push_point ℕ_discrete
length-push_point [] p h = omega arith
length-push_point (x ∷ points) p h =
    ground (arith, length-append points (p ∷ []), length-append (x ∷ points) (p ∷ []))

-- A bucket that is not full, with a chart that has room.
abbrev pub IsWithin : ℕ → BucketAccumulator × List TrafficPoint → Type 0
IsWithin bucket_ms (bucket, points) = (bucket.elapsed_ms < bucket_ms) × (length points ≤ 60)

pub record IsBounded (source : TrafficSource) (buckets : Buckets) : Type 0 where
  pub one_minute : IsWithin 1_000 (buckets.one_minute, source.charts.one_minute)
  pub fifteen_minutes : IsWithin 15_000 (buckets.fifteen_minutes, source.charts.fifteen_minutes)
  pub one_hour : IsWithin 60_000 (buckets.one_hour, source.charts.one_hour)
  pub twenty_four_hours :
      IsWithin 1_440_000 (buckets.twenty_four_hours, source.charts.twenty_four_hours)
  pub seven_days : IsWithin 10_080_000 (buckets.seven_days, source.charts.seven_days)

if-IsWithin :
    (n : ℕ) (b : Bool) (x y : BucketAccumulator × List TrafficPoint)
    → IsWithin n x
    → (b ≡ false → IsWithin n y)
    → IsWithin n (if b then x else y)
if-IsWithin n true x y h k = h
if-IsWithin n false x y h k = k refl

module _ (bytes : TrafficBytes) (elapsed at : ℕ) where
  update_bucket-IsWithin :
      (bucket_ms : ℕ) (bucket : BucketAccumulator) (points : List TrafficPoint)
      → 1 ≤ bucket_ms
      → IsWithin bucket_ms (bucket, points)
      → IsWithin bucket_ms (update_bucket bucket_ms bytes elapsed at bucket points)
  unfolding update_bucket
  update_bucket-IsWithin bucket_ms bucket points d h =
      if-IsWithin bucket_ms _ _ _ (omega arith, length-push_point points _ h.1)
        (λ e. (ground (arith, e), h.1))

  update_source-IsBounded :
      (source : TrafficSource) (buckets : Buckets)
      → IsBounded source buckets
      → IsBounded
          (update_source source bytes elapsed at buckets).0
          (update_source source bytes elapsed at buckets).1
  unfolding update_source
  update_source-IsBounded source b h = record {
    one_minute = update_bucket-IsWithin _ _ _ (omega arith) h.one_minute;
    fifteen_minutes = update_bucket-IsWithin _ _ _ (omega arith) h.fifteen_minutes;
    one_hour = update_bucket-IsWithin _ _ _ (omega arith) h.one_hour;
    twenty_four_hours = update_bucket-IsWithin _ _ _ (omega arith) h.twenty_four_hours;
    seven_days = update_bucket-IsWithin _ _ _ (omega arith) h.seven_days;
  }

abbrev pub AreBounded : TrafficSampler × TrafficState → Type 0
AreBounded (sampler, state) =
    IsBounded state.wan sampler.wan_buckets
    × IsBounded state.lan.source sampler.lan_buckets
    × IsBounded state.all sampler.all_buckets

if-AreBounded :
    (b : Bool) (x y : Bool × (TrafficSampler × TrafficState))
    → AreBounded x.1
    → AreBounded y.1
    → AreBounded (if b then x else y).1
if-AreBounded true x y h k = h
if-AreBounded false x y h k = k

sample_after-AreBounded :
    (previous : Option TrafficCounters) (at elapsed : ℕ) (current : TrafficCounters)
    (hw_offload : Bool) (sampler : TrafficSampler) (state : TrafficState)
    → AreBounded (sampler, state)
    → AreBounded (sample_after previous at elapsed current hw_offload sampler state).1
unfolding sample_after update_sources
sample_after-AreBounded none at elapsed current hw_offload sampler state h = h
sample_after-AreBounded (some previous) at elapsed current hw_offload sampler state (w, l, a) =
    if-AreBounded (elapsed == 0) _ _ (w, l, a)
      (
        update_source-IsBounded _ elapsed at state.wan sampler.wan_buckets w,
        update_source-IsBounded _ elapsed at state.lan.source sampler.lan_buckets l,
        update_source-IsBounded _ elapsed at state.all sampler.all_buckets a,
      )

-- A sample keeps every one of the fifteen charts at sixty points at most, and every accumulator below
-- the time that a point of its chart covers.
pub sample-AreBounded :
    (now at : ℕ) (current : TrafficCounters) (hw_offload : Bool) (sampler : TrafficSampler)
    (state : TrafficState)
    → AreBounded (sampler, state)
    → AreBounded (sample now at current hw_offload sampler state).1
unfolding sample
sample-AreBounded now at current hw_offload sampler state h =
    sample_after-AreBounded sampler.previous at _ current hw_offload _ state h
