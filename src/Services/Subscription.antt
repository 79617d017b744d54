-- ===== src/Services/Subscription.antt =====
-- src/application/subscription/mod.rs: the clients that ask for the state to be sampled, each until an
-- instant, in milliseconds. The id of a new client comes from `generate_id`, which reads it from the
-- kernel; it is an argument here, as is the present instant.
use unetic_core.Prelude.{
  ℕ, ◌+◌, ◌*◌, Bool, true, false, not, ◌&&◌, [], ◌∷◌, String, Map, insert, remove, contains_key,
  ltb, leb, if◌then◌else◌, Result, ok, err,
}

pub data SubscribeError : Type 0 where
  not_found invalid_ttl : SubscribeError

abbrev pub Subscribers : Type 0
Subscribers = Map ℕ

unfoldable pub validate_ttl : ℕ → Result ℕ SubscribeError
validate_ttl ttl_mins = if leb 1 ttl_mins && leb ttl_mins 99 then ok ttl_mins else err invalid_ttl

-- `Instant::now() + Duration::from_secs(ttl_mins as u64 * 60)`
abbrev pub expiry_at : ℕ → ℕ → ℕ
expiry_at now ttl_mins = now + ttl_mins * 60 * 1000

abbrev created :
    String → ℕ → Subscribers → Result ℕ SubscribeError → Result String SubscribeError × Subscribers
created id now subs (err error) = (err error, subs)
created id now subs (ok ttl_mins) = (ok id, insert id (expiry_at now ttl_mins) subs)

unfoldable pub create : String → ℕ → ℕ → Subscribers → Result String SubscribeError × Subscribers
create id now ttl_mins subs = created id now subs (validate_ttl ttl_mins)

abbrev continued :
    String
    → ℕ
    → Subscribers
    → Result ℕ SubscribeError
    → Result (Unit {0}) SubscribeError × Subscribers
continued id now subs (err error) = (err error, subs)
continued id now subs (ok ttl_mins) =
    if not (contains_key subs id)
    then (err not_found, subs)
    else (ok tt, insert id (expiry_at now ttl_mins) subs)

unfoldable pub continue_sub :
    String → ℕ → ℕ → Subscribers → Result (Unit {0}) SubscribeError × Subscribers
continue_sub id now ttl_mins subs = continued id now subs (validate_ttl ttl_mins)

unfoldable pub cancel : String → Subscribers → Result (Unit {0}) SubscribeError × Subscribers
cancel id subs = (if contains_key subs id then ok tt else err not_found, remove id subs)

-- `retain(|_, expiry| *expiry > now)`
unfoldable pub retain_live : ℕ → Subscribers → Subscribers
retain_live now [] = []
retain_live now ((id, expiry) ∷ subs) =
    let rest = retain_live now subs in if ltb now expiry then (id, expiry) ∷ rest else rest

abbrev pub has_some : Subscribers → Bool
has_some [] = false
has_some (_ ∷ _) = true

unfoldable pub has_active_subscribers : ℕ → Subscribers → Bool × Subscribers
has_active_subscribers now subs = let kept = retain_live now subs in (has_some kept, kept)
