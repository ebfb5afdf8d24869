-- ===== src/SubscriptionService/Linking/Limits.antt =====
-- The number of linked accounts stays within its limits.
use home_gate.Common.{
  ◌≤◌, ◌<◌, String, ◌≡◌, inl, inr, Bool, true, false, some, arith, eq_iff, Option-cases,
}
use home_gate.Model.{Subscription, ExternalUserAccount, World}
use home_gate.Effects.{final, succeeds}
use home_gate.Environment.{Environment}
use home_gate.Repositories.Accounts
use home_gate.Repositories.Services
use home_gate.Repositories.Subscriptions
use home_gate.SubscriptionService.{get_account_cap, is_currently_active}
use home_gate.SubscriptionService.Linking.{
  AddAccountRequest, assert_owner_or_admin, find_service, find_user, assert_can_add_account,
  link_account, add_account, delete_account,
}

-- What `addAccount` has checked before it asks for an account.
pub record Addable (env : Environment) (w : World) (s : Subscription) : Type 0 where
  pub currently_active : is_currently_active w.now s ≡ true
  pub below_cap :
      Accounts.count_by_subscription_id env s.id w < get_account_cap env s.user_id s.service_id w

module _ (env : Environment) (subscription_id : String) (w : World) where
  -- An account is added only to a subscription that is stored and currently active, and that has
  -- fewer accounts than the cap of its user and service allows.
  pub add_account-Addable :
      (request : AddAccountRequest) (user_id : String)
      → succeeds (add_account env subscription_id request user_id w) ≡ true
      → (s : Subscription) × (Subscriptions.find_by_id env subscription_id w ≡ some s)
        × Addable env w s
  unfolding add_account assert_owner_or_admin find_service find_user assert_can_add_account
      link_account
  add_account-Addable request user_id h =
      elim (Option-cases (Subscriptions.find_by_id env subscription_id w)) [
        | inl e ↦ absurd (ground arith)
        | inr (s, e) ↦ (
          s,
          e,
          record {
            currently_active = ground arith;
            below_cap = elim (Option-cases (Services.find_by_id env s.service_id w)) [
              | inl none_found ↦ absurd (ground arith)
              | inr (service, f) ↦
                  ground (arith, Services.find_by_id-id env s.service_id w service f)
            ];
          },
        )
      ]

  -- With a stored subscription that has as many accounts as the cap of its user and service
  -- allows, `addAccount` throws and changes nothing: neither a row, an event nor a call to an
  -- integration is made.
  pub add_account_full :
      (request : AddAccountRequest) (user_id : String) (s : Subscription)
      → Subscriptions.find_by_id env subscription_id w ≡ some s
      → get_account_cap env s.user_id s.service_id w ≤ Accounts.count_by_subscription_id env s.id w
      → (succeeds (add_account env subscription_id request user_id w) ≡ false)
        × (final (add_account env subscription_id request user_id w) ≡ w)
  unfolding add_account assert_owner_or_admin find_service find_user assert_can_add_account
      link_account
  add_account_full request user_id s e h =
      elim (Option-cases (Services.find_by_id env s.service_id w)) [
        | inl f ↦ (ground arith, ground arith)
        | inr (service, f) ↦ (
          ground (arith, Services.find_by_id-id env s.service_id w service f),
          ground (arith, Services.find_by_id-id env s.service_id w service f),
        )
      ]

  -- An account is deleted only if it is linked to the stored subscription and is not the only one.
  pub delete_account-keeps_one :
      (account_id user_id : String) (deprovision_external : Bool)
      → succeeds (delete_account env subscription_id account_id user_id deprovision_external w)
        ≡ true
      → (s : Subscription) × (Subscriptions.find_by_id env subscription_id w ≡ some s)
        × (2 ≤ Accounts.count_by_subscription_id env s.id w)
        × ((account : ExternalUserAccount) × (Accounts.find_by_id env account_id w ≡ some account)
            × (account.subscription_id ≡ s.id))
  unfolding delete_account
  delete_account-keeps_one account_id user_id deprovision_external h =
      elim (Option-cases (Subscriptions.find_by_id env subscription_id w)) [
        | inl e ↦ absurd (ground arith)
        | inr (s, e) ↦ elim (Option-cases (Services.find_by_id env s.service_id w)) [
          | inl no_service ↦ absurd (ground arith)
          | inr (service, f) ↦ elim (Option-cases (Accounts.find_by_id env account_id w)) [
            | inl absent ↦ absurd (ground arith)
            | inr (account, g) ↦ (
              s,
              e,
              ground arith,
              (account, g, ground (arith, eq_iff account.subscription_id s.id)),
            )
          ]
        ]
      ]
