-- ===== src/InviteAccountLinking/Linked.antt =====
-- What the linking of a found account leaves.
use home_gate.InviteAccountLinking.Kept.{on_activated-Keeps, try_catch-returns}
use home_gate.InviteAccountLinking.{
  account_of, linked_subscription, cascade_linked, link_user, link_found,
}
use home_gate.Cascade.{on_activated}
use home_gate.Environment.{Environment}
use home_gate.Model.{Subscription, ExternalUserAccount, CreateSubscription, ApplicationUser, World}
use home_gate.Effects.{M, pure, bind_returned, then_returned, returned}
use home_gate.Common.{
  ℕ, ◌+◌, String, ◌≡◌, ap, ◌∙◌, ◌&&◌, none, some, [], ◌∷◌, arith, ◌==◌, ==_refl, is_value, length,
  nat_eq, string_eq,
}
use home_gate.Repositories.Accounts
use home_gate.Repositories.Subscriptions

module _ (env : Environment) (default_expiry_days : ℕ) (user_id : String) (service_id : ℕ)
    (user : ApplicationUser) (w : World) where
  abbrev request : CreateSubscription
  request = linked_subscription env default_expiry_days user_id service_id w.now

  abbrev linked : Subscription
  linked = Subscriptions.new_row (env.uuid w.created) w.now request

  abbrev subscribed : World
  subscribed = Subscriptions.after_create env request w

  abbrev pub owned : ExternalUserAccount
  owned = record {
    id = env.uuid (w.created + 1);
    subscription_id = linked.id;
    user_id = user_id;
    service_id = service_id;
    external_account_id = some user.id;
    username = some user.username;
    email = none;
    created_at = w.now;
    updated_at = w.now;
  }

  abbrev stored : World
  stored = record subscribed {
    accounts = env.accounts.insert owned w.accounts;
    created = w.created + 1 + 1;
  }

  create_returned :
      Subscriptions.find env user_id service_id w ≡ none
      → Subscriptions.create env request w ≡ returned (some linked) subscribed
  unfolding Subscriptions.create
  create_returned e = ground arith

  account_returned :
      Accounts.clash env service_id (some user.id) w ≡ none
      → Accounts.create env linked.id user_id service_id (account_of user) subscribed
        ≡ returned (some owned) stored
  unfolding Accounts.create Accounts.clash
  account_returned e = ground arith

  unlinked :
      Accounts.find_by_external_id env service_id user.id w ≡ []
      → Accounts.clash env service_id (some user.id) w ≡ none
  unfolding Accounts.find_by_external_id Accounts.clash
  unlinked e =
      (env.accounts.find-count
          (λ a. a.service_id == service_id && is_value a.external_account_id user.id) w.accounts).1
        (ap length e)

  found :
      env.accounts.find (λ a. a.id == owned.id) w.accounts ≡ none
      → Accounts.find_by_id env owned.id stored ≡ some owned
  unfolding Accounts.find_by_id
  found fresh =
      env.accounts.find-insert_new (λ a. a.id == owned.id) owned w.accounts fresh (==_refl owned.id)

  link_user_returned :
      Subscriptions.find env user_id service_id w ≡ none
      → Accounts.clash env service_id (some user.id) w ≡ none
      → link_user env default_expiry_days user_id service_id user w
        ≡ cascade_linked env default_expiry_days linked stored
  unfolding link_user
  link_user_returned e f =
      bind_returned (Subscriptions.create env request) _ w subscribed (some linked)
        (create_returned e)
      ∙ then_returned (Accounts.create env linked.id user_id service_id (account_of user))
          (cascade_linked env default_expiry_days linked) subscribed stored (some owned)
          (account_returned f)

  link_found_returned :
      Accounts.find_by_external_id env service_id user.id w ≡ []
      → link_found env default_expiry_days user_id service_id user w
        ≡ link_user env default_expiry_days user_id service_id user w
  unfolding link_found
  link_found_returned e =
      ap
        (λ l.
          (elim l as (λ x. M (Unit {0})) [
            | [] ↦ link_user env default_expiry_days user_id service_id user
            | a ∷ rest ↦ pure tt
          ])
            w)
        e

  -- Where the user is not subscribed to the service, nobody has linked the vendor's account and the
  -- id of the account's new row is fresh, linking the found account returns, whatever becomes of the
  -- derived services. The vendor's account is then stored as this user's at this service, under the
  -- new subscription's id.
  pub find_by_id-link_found :
      Subscriptions.find env user_id service_id w ≡ none
      → Accounts.find_by_external_id env service_id user.id w ≡ []
      → env.accounts.find (λ a. a.id == owned.id) w.accounts ≡ none
      → (v : World) × (link_found env default_expiry_days user_id service_id user w ≡ returned tt v)
        × (Accounts.find_by_id env owned.id v ≡ some owned)
  unfolding cascade_linked
  find_by_id-link_found e f fresh =
      let (v, g, p) =
        try_catch-returns env default_expiry_days owned.id owned (on_activated env linked)
          (on_activated-Keeps env default_expiry_days owned.id owned linked) stored (found fresh) in
      (v, link_found_returned f ∙ (link_user_returned e (unlinked f) ∙ g), p)
