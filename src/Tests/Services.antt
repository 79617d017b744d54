-- ===== src/Tests/Services.antt =====
-- The theorem on the subscriptions at two clients.
use unetic_core.Prelude.{
  ◌≢◌, ◌==◌, string_eq, String, String-discrete, false, ap, insert, ◌≡◌, refl, true, List, [], ◌∷◌,
  arith, ok, string_eq,
}
use unetic_core.Services.Subscription.{
  Subscribers, create, expiry_at, validate_ttl, has_active_subscribers,
}
use unetic_core.Services.SubscriptionLife.{
  Call, creates, cancels, polls, run, create-has_active_subscribers,
}

abbrev first_client : Subscribers
first_client = ("sub-1", expiry_at 0 10) ∷ []

first_created : create "sub-1" 0 10 [] ≡ (ok "sub-1", first_client)
unfolding create validate_ttl insert
first_created = refl

abbrev meanwhile : List Call
meanwhile = creates "sub-2" 5 1 ∷ polls 1000 ∷ cancels "sub-2" ∷ []

not_first : ◌≢◌ {A = String} "sub-2" "sub-1"
unfolding String-discrete
not_first h = absurd (let e : true ≡ false = ap (λ (id : String). id == "sub-2") h in cc)

create-has_active_subscribers_example :
    (has_active_subscribers 2000 (run meanwhile first_client)).0 ≡ true
create-has_active_subscribers_example =
    create-has_active_subscribers "sub-1" 0 10 [] first_client first_created meanwhile
      (not_first, (omega arith, (not_first, tt))) 2000 (omega arith)
