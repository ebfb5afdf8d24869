-- ===== src/InviteService/Creating.antt =====
-- `createToken` of invite.service.ts, with the checks of the linked accounts.
pub mod Checks
use home_gate.Common.{
  ℕ, String, Bool, false, not, Option, none, some, List, [], ◌∷◌, ◌==◌, if◌then◌else◌, is_some,
  or_else, holds, any, first, nat_eq, string_eq,
}
use home_gate.Model.{is_pending_user, auto_superseded, User, Invite}
use home_gate.Effects.{
  M, ◌>>◌, pure, throw, gets, throw_if, expect, bad_request, conflict, http, ◌>>=◌,
}
use home_gate.Environment.{Environment}
use home_gate.Repositories.Invites
use home_gate.Repositories.Invites.{CreateInviteAccount}
use home_gate.Repositories.Services
use home_gate.Repositories.Users
use home_gate.Provisioners.Managed.{message}

-- An element of `CreateInviteRequestDto.accounts`.
pub record InviteAccountRequest : Type 0 where
  pub service_name : String
  pub username : Option String
  pub email : Option String
  pub account_id : Option String

pub record CreateInviteRequest : Type 0 where
  pub email : Option String
  pub is_admin : Option Bool
  pub expires_in_days : ℕ
  pub accounts : List InviteAccountRequest

module _ (env : Environment) where
  -- The loop of `validateUniqueServices` over the set `seen`.
  pub unique_from : List String → List InviteAccountRequest → M (Unit {0})
  unique_from seen [] = pure tt
  unique_from seen (a ∷ accounts) =
      let key = env.to_lower_case a.service_name in
      let rest = unique_from (key ∷ seen) accounts in
      if any (λ k. k == key) seen
      then throw (
          http bad_request
            (message ("Duplicate service '" ∷ a.service_name ∷ "' in linked accounts." ∷ [])))
      else rest

  pub validate_unique_services : List InviteAccountRequest → M (Unit {0})
  unfolding unique_from
  validate_unique_services accounts = unique_from [] accounts

  -- Only the first account with an address is checked.
  pub validate_account_emails : List InviteAccountRequest → Option String → M (Unit {0})
  validate_account_emails accounts invite_email =
      elim (first (λ (a : InviteAccountRequest). is_some a.email) accounts) [
        | none ↦ pure tt
        | some a ↦ elim a.email [
          | none ↦ pure tt
          | some email ↦ if email == "" then pure tt else elim invite_email [
            | none ↦ throw (
                http bad_request
                  "Invite must have a bound email when an account email is provided.")
            | some bound ↦
                throw_if (not (env.to_lower_case email == env.to_lower_case bound))
                  (http bad_request "Account email must match the invite bound email.")
          ]
        ]
      ]

  -- `Object.values(IntegrationProvider).find(...)`
  abbrev pub integration_name : String → Option String
  integration_name name =
      if "jellyfin" == name
      then some "jellyfin"
      else if "immich" == name
      then some "immich"
      else none

  -- One round of the loop of `resolveAccounts`.
  pub resolve_account : InviteAccountRequest → M CreateInviteAccount
  resolve_account a = do
    slug ← expect (integration_name (env.to_lower_case a.service_name)) (
        http bad_request
          (message ("Service '" ∷ a.service_name ∷ "' is not a valid service name." ∷ [])))
    found ← gets (Services.find_by_slug env slug)
    service ←
        expect found
          (http bad_request (message ("Service '" ∷ a.service_name ∷ "' not found." ∷ [])))
    pure (record {
      service_id = service.id;
      username = a.username;
      email = a.email;
      account_id = a.account_id;
    })

  pub resolve_accounts : List InviteAccountRequest → M (List CreateInviteAccount)
  unfolding resolve_account
  resolve_accounts [] = pure []
  resolve_accounts (a ∷ accounts) = do
    entry ← resolve_account a
    rest ← resolve_accounts accounts
    pure (entry ∷ rest)

  pub supersede_pending_invite : String → M (Unit {0})
  supersede_pending_invite email = do
    existing_user ← gets (Users.find_by_email env email)
    throw_if (holds (λ (u : User). not (is_pending_user u.status)) existing_user)
        (http conflict "An account with this email already exists.")
    existing_invite ← gets (Invites.find_active_pending_by_email env email)
    elim existing_invite [
      | none ↦ pure tt
      | some invite ↦ Invites.revoke env invite.id auto_superseded none >> pure tt
    ]

  -- `const accounts = …`
  pub check_accounts : CreateInviteRequest → M (List CreateInviteAccount)
  unfolding validate_unique_services validate_account_emails resolve_accounts
  check_accounts options = elim options.accounts [
    | [] ↦ pure []
    | a ∷ rest ↦ do
      validate_unique_services (a ∷ rest)
      validate_account_emails (a ∷ rest) options.email
      resolve_accounts (a ∷ rest)
  ]

  -- The raw token, and the stored invite.
  pub store_invite : CreateInviteRequest → String → List CreateInviteAccount → M (String × Invite)
  store_invite options created_by_user_id accounts = do
    raw_token ← gets (λ w. env.random_token w.created)
    now ← gets (λ w. w.now)
    invite ←
        Invites.create env
          (record {
            token = env.hash_sha256 raw_token;
            email = options.email;
            is_admin = or_else options.is_admin false;
            expires_at = env.add_days options.expires_in_days now;
            created_by_user_id = created_by_user_id;
          })
          accounts
    pure (raw_token, invite)

  abbrev pub supersede : Option String → M (Unit {0})
  supersede none = pure tt
  supersede (some email) = supersede_pending_invite email

  unfoldable pub create_token : CreateInviteRequest → String → M (String × Invite)
  unfolding check_accounts store_invite supersede_pending_invite
  create_token options created_by_user_id = do
    accounts ← check_accounts options
    supersede options.email
    store_invite options created_by_user_id accounts
