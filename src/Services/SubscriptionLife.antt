-- ===== src/Services/SubscriptionLife.antt =====
-- How long a client of src/application/subscription/mod.rs is counted.
use unetic_core.Prelude.{
  ◌≡◌, ◌≢◌, ◌<◌, refl, ap, ℕ, true, some, List, [], ◌∷◌, String, get, get-insert, get-remove, ok,
  arith,
}
use unetic_core.Services.Subscription.{
  Subscribers, validate_ttl, expiry_at, create, continue_sub, cancel, retain_live,
  has_active_subscribers, has_some,
}

-- A call of the manager, with the instant at which it is made.
pub data Call : Type 0 where
  creates continues : String → ℕ → ℕ → Call
  cancels : String → Call
  polls : ℕ → Call

abbrev pub after : Call → Subscribers → Subscribers
after (creates id now ttl_mins) subs = (create id now ttl_mins subs).1
after (continues id now ttl_mins) subs = (continue_sub id now ttl_mins subs).1
after (cancels id) subs = (cancel id subs).1
after (polls now) subs = (has_active_subscribers now subs).1

abbrev pub run : List Call → Subscribers → Subscribers
run [] subs = subs
run (call ∷ calls) subs = run calls (after call subs)

-- The calls that do not concern a client that is counted up to an instant.
abbrev pub Spares : String → ℕ → Call → Type 0
Spares id expiry (creates other now ttl_mins) = other ≢ id
Spares id expiry (continues other now ttl_mins) = other ≢ id
Spares id expiry (cancels other) = other ≢ id
Spares id expiry (polls now) = now < expiry

abbrev pub AllSpare : String → ℕ → List Call → Type 0
AllSpare id expiry [] = Unit
AllSpare id expiry (call ∷ calls) = Spares id expiry call × AllSpare id expiry calls

get-retain_live :
    (id : String) (expiry now : ℕ) (subs : Subscribers)
    → now < expiry
    → get subs id ≡ some expiry
    → get (retain_live now subs) id ≡ some expiry
unfolding get retain_live
get-retain_live id expiry now [] h q = absurd cc
get-retain_live id expiry now ((other, e) ∷ subs) h q =
    ground (arith, get-retain_live id expiry now subs h)

after-Spares :
    (id : String) (expiry : ℕ) (call : Call) (subs : Subscribers)
    → Spares id expiry call
    → get subs id ≡ some expiry
    → get (after call subs) id ≡ some expiry
unfolding create continue_sub cancel validate_ttl has_active_subscribers
after-Spares id expiry (creates other now ttl_mins) subs h q =
    ground (arith, get-insert other id (expiry_at now ttl_mins) subs)
after-Spares id expiry (continues other now ttl_mins) subs h q =
    ground (arith, get-insert other id (expiry_at now ttl_mins) subs)
after-Spares id expiry (cancels other) subs h q = ground (arith, get-remove other id subs)
after-Spares id expiry (polls now) subs h q = get-retain_live id expiry now subs h q

run-AllSpare :
    (id : String) (expiry : ℕ) (calls : List Call) (subs : Subscribers)
    → AllSpare id expiry calls
    → get subs id ≡ some expiry
    → get (run calls subs) id ≡ some expiry
run-AllSpare id expiry [] subs h q = q
run-AllSpare id expiry (call ∷ calls) subs h q =
    run-AllSpare id expiry calls _ h.1 (after-Spares id expiry call subs h.0 q)

has_some-get :
    (id : String) (expiry : ℕ) (subs : Subscribers)
    → get subs id ≡ some expiry
    → has_some subs ≡ true
unfolding get
has_some-get id expiry [] q = absurd cc
has_some-get id expiry (_ ∷ _) q = refl

get-create :
    (id : String) (now ttl_mins : ℕ) (subs t : Subscribers)
    → create id now ttl_mins subs ≡ (ok id, t)
    → get t id ≡ some (expiry_at now ttl_mins)
unfolding create validate_ttl
get-create id now ttl_mins subs t h =
    let left = ap (λ r. get r.1 id) h in
    let answer = ap (λ r. r.0) h in
    ground (arith, get-insert id id (expiry_at now ttl_mins) subs, left, answer)

-- A client that is created is counted until its time is over: whatever clients are created, renewed
-- or cancelled in between, as long as it is not this one, and as long as no earlier poll comes after
-- its time, a poll before its time is over finds an active client.
pub create-has_active_subscribers :
    (id : String) (now ttl_mins : ℕ) (subs t : Subscribers)
    → create id now ttl_mins subs ≡ (ok id, t)
    → (calls : List Call) → AllSpare id (expiry_at now ttl_mins) calls
    → (later : ℕ) → later < expiry_at now ttl_mins
    → (has_active_subscribers later (run calls t)).0 ≡ true
unfolding has_active_subscribers
create-has_active_subscribers id now ttl_mins subs t h calls spared later before =
    let expiry = expiry_at now ttl_mins in
    has_some-get id expiry _ (
      get-retain_live id expiry later _ before
        (run-AllSpare id expiry calls t spared (get-create id now ttl_mins subs t h)))
