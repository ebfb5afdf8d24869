-- ===== src/InviteAccountLinking/Kept.antt =====
-- What the linking of the accounts of an invite keeps.
use home_gate.InviteAccountLinking.{
  as_provider, account_of, linked_subscription, cascade_linked, link_user, link_found, filter_of,
  ask_client, link_account, handle_invite_claimed,
}
use home_gate.Cascade.Created.{OnlySubscriptions, mirror-OnlySubscriptions}
use home_gate.Cascade.{mirror, on_activated}
use home_gate.Environment.{Integration, Environment, ask, OnlyCalls-ask}
use home_gate.Model.{
  IntegrationProvider, is_referenced, Service, Subscription, ExternalUserAccount, InviteAccount,
  CreateSubscription, ExternalAccountData, ApplicationUser, Call, World, get_user, provider_eq,
}
use home_gate.Common.{
  ℕ, String, ◌≡◌, refl, ◌∙◌, Bool, true, false, Option, none, some, List, [], ◌∷◌, arith, ◌==◌,
  if◌then◌else◌, is_some, nat_eq, string_eq,
}
use home_gate.Effects.{
  Answer, Outcome, M, ◌>>◌, pure, try_catch, for_each, for_each_returned, final, for_each-keeps,
  Keeps, bind-Keeps, then-Keeps, if-Keeps, returned, threw,
}
use home_gate.Repositories.Accounts
use home_gate.Repositories.Subscriptions
use home_gate.Repositories.Services

module _ (env : Environment) (default_expiry_days : ℕ) (id : String) (a : ExternalUserAccount) where
  -- The account is stored, as it was.
  abbrev pub Stored : World → Type 0
  Stored w = Accounts.find_by_id env id w ≡ some a

  Stored-OnlySubscriptions : (w w' : World) → OnlySubscriptions w w' → Stored w → Stored w'
  unfolding Accounts.find_by_id
  Stored-OnlySubscriptions w w' e p = rw e p

  create-Keeps : (request : CreateSubscription) → Keeps Stored (Subscriptions.create env request)
  unfolding Subscriptions.create Accounts.find_by_id
  create-Keeps request w p = ground arith

  inserted :
      (w : World)
      → Stored w
      → (r : ExternalUserAccount)
      → env.accounts.find (λ r. r.id == id) (env.accounts.insert r w.accounts) ≡ some a
  unfolding Accounts.find_by_id
  inserted w p r = env.accounts.find-insert_kept (λ r. r.id == id) r a w.accounts p

  accounts_create-Keeps :
      (subscription_id user_id : String) (service_id : ℕ) (request : ExternalAccountData)
      → Keeps Stored (Accounts.create env subscription_id user_id service_id request)
  unfolding Accounts.create Accounts.find_by_id
  accounts_create-Keeps subscription_id user_id service_id request w p =
      go (is_some (Accounts.clash env service_id request.external_account_id w)) refl
    where
      go :
          (b : Bool)
          → is_some (Accounts.clash env service_id request.external_account_id w) ≡ b
          → Stored (final (Accounts.create env subscription_id user_id service_id request w))
      go true e = rw (e, Accounts.create) p
      go false e = rw (e, Accounts.create) (inserted w p _)

  mirror-Keeps :
      (source : Subscription) (service_id : ℕ) → Keeps Stored (mirror env source service_id)
  mirror-Keeps source service_id w p =
      Stored-OnlySubscriptions w (final (mirror env source service_id w))
        (mirror-OnlySubscriptions env source service_id w) p

  pub on_activated-Keeps : (source : Subscription) → Keeps Stored (on_activated env source)
  unfolding on_activated
  on_activated-Keeps source w p =
      for_each-keeps Stored
        (λ (service : Service).
          if is_referenced service.account_type then mirror env source service.id else pure tt)
        (λ (service : Service).
          if-Keeps Stored (is_referenced service.account_type) (mirror env source service.id)
            (pure tt) (mirror-Keeps source service.id) (λ v q. q))
        (Services.find_enabled_by_source env source.service_id w) w p

  try_catch-Keeps : (m : M (Unit {0})) → Keeps Stored m → Keeps Stored (try_catch m (λ e. pure tt))
  try_catch-Keeps m h w p = go (m w) (h w p)
    where
      go :
          (o : Outcome (Unit {0}))
          → Stored (final o)
          → Stored (final (elim o [ returned a w' ↦ returned a w' | threw e w' ↦ returned tt w' ]))
      go (returned u v) q = q
      go (threw x v) q = q

  link_user-Keeps :
      (user_id : String) (service_id : ℕ) (user : ApplicationUser)
      → Keeps Stored (link_user env default_expiry_days user_id service_id user)
  unfolding link_user cascade_linked
  link_user-Keeps user_id service_id user w p =
      bind-Keeps Stored
        (Subscriptions.create env
          (linked_subscription env default_expiry_days user_id service_id w.now))
        _ (create-Keeps (linked_subscription env default_expiry_days user_id service_id w.now)) go w
        p
    where
      go :
          (created : Option Subscription)
          → Keeps Stored (elim created [
            | none ↦ pure tt
            | some s ↦
                Accounts.create env s.id user_id service_id (account_of user)
                >> cascade_linked env default_expiry_days s
          ])
      go none v q = q
      go (some s) v q =
          then-Keeps Stored (Accounts.create env s.id user_id service_id (account_of user))
            (cascade_linked env default_expiry_days s)
            (accounts_create-Keeps s.id user_id service_id (account_of user))
            (try_catch-Keeps (on_activated env s) (on_activated-Keeps s)) v q

  link_found-Keeps :
      (user_id : String) (service_id : ℕ) (user : ApplicationUser)
      → Keeps Stored (link_found env default_expiry_days user_id service_id user)
  unfolding link_found
  link_found-Keeps user_id service_id user w p =
      go (Accounts.find_by_external_id env service_id user.id w) w p
    where
      go :
          (l : List ExternalUserAccount)
          → Keeps Stored (elim l [
            | [] ↦ link_user env default_expiry_days user_id service_id user
            | b ∷ rest ↦ pure tt
          ])
      go [] v q = link_user-Keeps user_id service_id user v q
      go (b ∷ rest) v q = q

  ask-Keeps : {A : Type 0} (call : Call) (f : List Call → Answer A) → Keeps Stored (ask call f)
  unfolding Accounts.find_by_id
  ask-Keeps call f w p = rw (OnlyCalls-ask call f w) p

  ask_client-Keeps :
      (user_id : String) (account : InviteAccount) (client : Integration)
      → Keeps Stored (ask_client env default_expiry_days user_id account client)
  unfolding ask_client
  ask_client-Keeps user_id account client =
      bind-Keeps Stored
        (ask (get_user client.name (filter_of env default_expiry_days account))
          (λ calls. client.get_user calls (filter_of env default_expiry_days account)))
        _
        (ask-Keeps (get_user client.name (filter_of env default_expiry_days account))
          (λ calls. client.get_user calls (filter_of env default_expiry_days account)))
        (λ result. go result.ok result.user)
    where
      go :
          (ok : Bool) (user : Option ApplicationUser)
          → Keeps Stored (elim user [
            | none ↦ pure tt
            | some u ↦
                if ok
                then link_found env default_expiry_days user_id account.service_id u
                else pure tt
          ])
      go ok none v q = q
      go true (some u) v q = link_found-Keeps user_id account.service_id u v q
      go false (some u) v q = q

  link_account-Keeps :
      (user_id : String) (account : InviteAccount)
      → Keeps Stored (link_account env default_expiry_days user_id account)
  unfolding link_account
  link_account-Keeps user_id account = go (as_provider account.service_name)
    where
      client_of :
          (found : Option Integration)
          → Keeps Stored (elim found [
            | none ↦ pure tt
            | some client ↦ ask_client env default_expiry_days user_id account client
          ])
      client_of none v q = q
      client_of (some client) v q = ask_client-Keeps user_id account client v q

      go :
          (named : Option IntegrationProvider)
          → Keeps Stored (elim named [
            | none ↦ pure tt
            | some name ↦ elim (env.providers name) [
              | none ↦ pure tt
              | some client ↦ ask_client env default_expiry_days user_id account client
            ]
          ])
      go none v q = q
      go (some name) v q = client_of (env.providers name) v q

  -- A `try` whose `catch` only writes to the log returns.
  pub try_catch-returns :
      (m : M (Unit {0}))
      → Keeps Stored m
      → (w : World) → Stored w
      → (v : World) × (try_catch m (λ e. pure tt) w ≡ returned tt v) × Stored v
  try_catch-returns m h w p = go (m w) (h w p)
    where
      go :
          (o : Outcome (Unit {0}))
          → Stored (final o)
          → (v : World) × (elim o [ returned u w' ↦ returned u w' | threw e w' ↦ returned tt w' ]
              ≡ returned tt v)
            × Stored v
      go (returned u v) q = (v, refl, q)
      go (threw x v) q = (v, refl, q)

  abbrev caught : String → InviteAccount → M (Unit {0})
  caught user_id account =
      try_catch (link_account env default_expiry_days user_id account) (λ e. pure tt)

  -- Whatever the integrations answer, the handling of a claimed invite returns, and an account that
  -- was linked before is stored as it was.
  pub handle_invite_claimed-Keeps :
      (user_id : String) (accounts : List InviteAccount) (w : World)
      → Stored w
      → (v : World) × (handle_invite_claimed env default_expiry_days user_id accounts w
          ≡ returned tt v)
        × Stored v
  unfolding handle_invite_claimed for_each
  handle_invite_claimed-Keeps user_id [] w p = (w, refl, p)
  handle_invite_claimed-Keeps user_id (b ∷ accounts) w p =
      let (v, e, q) =
        try_catch-returns (link_account env default_expiry_days user_id b)
          (link_account-Keeps user_id b) w p in
      let (u, f, r) = handle_invite_claimed-Keeps user_id accounts v q in
      (u, for_each_returned (caught user_id) b accounts w v tt e ∙ f, r)
