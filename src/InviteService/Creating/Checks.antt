-- ===== src/InviteService/Creating/Checks.antt =====
-- What `createToken` demands of the accounts, and the invite that it stores.

use home_gate.InviteService.Redeeming.{is_mismatch, validate_token}
use home_gate.Repositories.Invites.{CreateInviteAccount, CreateInvite}
use home_gate.Environment.{Environment}
use home_gate.Effects.{Outcome, ◌>>=◌, pure, final, succeeds, Keeps, bind-Keeps, returned, threw}
use home_gate.Model.{auto_superseded, Invite, World}
use home_gate.Common.{
  ◌≤◌, String, ◌≡◌, refl, inl, inr, Bool, true, false, not, ◌&&◌, Option, none, some, List, [], ◌∷◌,
  map, arith, eq_iff, ◌==◌, ==_refl, Option-cases, is_some, or_else, any, first, nat_eq, string_eq,
}
use home_gate.InviteService.Creating.{
  InviteAccountRequest, CreateInviteRequest, unique_from, validate_unique_services,
  validate_account_emails, resolve_account, resolve_accounts, supersede_pending_invite,
  check_accounts, store_invite, supersede, create_token,
}
use home_gate.Repositories.Invites.Laws.{create_found, revoke-now}
use home_gate.InviteService.Redeeming.Attempts.{validate_token_iff}
use home_gate.Repositories.Invites

-- No two texts of the list are equal.
abbrev pub distinct : List String → Bool
distinct [] = true
distinct (k ∷ keys) = not (any (λ l. l == k) keys) && distinct keys

-- No text of the first list is in the second.
abbrev apart : List String → List String → Bool
apart [] seen = true
apart (k ∷ keys) seen = not (any (λ l. l == k) seen) && apart keys seen

==_sym : (a b : String) → (a == b) ≡ (b == a)
==_sym a b = ground (arith, eq_iff a b, eq_iff b a)

apart-cons :
    (k : String) (keys seen : List String)
    → apart keys (k ∷ seen) ≡ (not (any (λ l. l == k) keys) && apart keys seen)
apart-cons k [] seen = refl
apart-cons k (l ∷ keys) seen = ground (arith, apart-cons k keys seen, ==_sym k l)

module _ (env : Environment) where
  abbrev pub names : List InviteAccountRequest → List String
  names = map (λ (a : InviteAccountRequest). env.to_lower_case a.service_name)

  unique_from_iff :
      (seen : List String) (accounts : List InviteAccountRequest) (w : World)
      → succeeds (unique_from env seen accounts w)
        ≡ (apart (names accounts) seen && distinct (names accounts))
  unfolding unique_from
  unique_from_iff seen [] w = refl
  unique_from_iff seen (a ∷ accounts) w =
      let k = env.to_lower_case a.service_name in
      ground (arith, unique_from_iff (k ∷ seen) accounts w, apart-cons k (names accounts) seen)

  apart-nil : (keys : List String) → apart keys [] ≡ true
  apart-nil [] = refl
  apart-nil (k ∷ keys) = apart-nil keys

  -- The linked accounts of a new invite are accepted exactly if no two of them name the same service,
  -- upper and lower case being the same.
  pub validate_unique_services_iff :
      (accounts : List InviteAccountRequest) (w : World)
      → succeeds (validate_unique_services env accounts w) ≡ distinct (names accounts)
  unfolding validate_unique_services
  validate_unique_services_iff accounts w =
      ground (arith, unique_from_iff [] accounts w, apart-nil (names accounts))

  is_mismatch_self : (email : Option String) → is_mismatch email email ≡ false
  is_mismatch_self none = refl
  is_mismatch_self (some email) = ground (arith, ==_refl email)

  unique_from-final :
      (seen : List String) (accounts : List InviteAccountRequest) (w : World)
      → final (unique_from env seen accounts w) ≡ w
  unfolding unique_from
  unique_from-final seen [] w = refl
  unique_from-final seen (a ∷ accounts) w =
      ground (arith, unique_from-final (env.to_lower_case a.service_name ∷ seen) accounts w)

  validate_account_emails-final :
      (accounts : List InviteAccountRequest) (email : Option String) (w : World)
      → final (validate_account_emails env accounts email w) ≡ w
  unfolding validate_account_emails
  validate_account_emails-final accounts email w =
      elim (Option-cases (first (λ (a : InviteAccountRequest). is_some a.email) accounts)) [
        | inl e ↦ ground arith
        | inr (a, e) ↦ elim (Option-cases a.email) [
          | inl f ↦ ground arith
          | inr (text, f) ↦ ground arith
        ]
      ]

  resolve_account-Keeps :
      (w : World) (a : InviteAccountRequest) → Keeps (λ v. v ≡ w) (resolve_account env a)
  unfolding resolve_account
  resolve_account-Keeps w a v p = ground arith

  resolve_accounts-Keeps :
      (w : World) (accounts : List InviteAccountRequest)
      → Keeps (λ v. v ≡ w) (resolve_accounts env accounts)
  unfolding resolve_accounts
  resolve_accounts-Keeps w [] v p = p
  resolve_accounts-Keeps w (a ∷ accounts) v p =
      bind-Keeps (λ v. v ≡ w) (resolve_account env a)
        (λ entry. resolve_accounts env accounts >>= (λ rest. pure (entry ∷ rest)))
        (resolve_account-Keeps w a)
        (λ entry.
          bind-Keeps (λ v. v ≡ w) (resolve_accounts env accounts) (λ rest. pure (entry ∷ rest))
            (resolve_accounts-Keeps w accounts) (λ rest u q. q))
        v p

  resolve_accounts-final :
      (accounts : List InviteAccountRequest) (w : World)
      → final (resolve_accounts env accounts w) ≡ w
  resolve_accounts-final accounts w = resolve_accounts-Keeps w accounts w refl

  check_accounts-final :
      (options : CreateInviteRequest) (w : World) → final (check_accounts env options w) ≡ w
  unfolding check_accounts validate_unique_services
  check_accounts-final options w = go options.accounts refl
    where
      go :
          (accounts : List InviteAccountRequest)
          → options.accounts ≡ accounts
          → final (check_accounts env options w) ≡ w
      go [] e = ground arith
      go (a ∷ rest) e = ground (
        arith,
        unique_from-final [] (a ∷ rest) w,
        validate_account_emails-final (a ∷ rest) options.email w,
        resolve_accounts-final (a ∷ rest) w,
      )

  supersede-now : (email : Option String) (w : World) → (final (supersede env email w)).now ≡ w.now
  unfolding supersede_pending_invite
  supersede-now none w = refl
  supersede-now (some email) w =
      elim (Option-cases (Invites.find_active_pending_by_email env email w)) [
        | inl e ↦ ground arith
        | inr (i, e) ↦ ground (arith, revoke-now env i.id auto_superseded none w)
      ]

  store_invite-redeemable :
      (options : CreateInviteRequest) (user_id raw_token : String)
      (accounts : List CreateInviteAccount) (i : Invite) (w w' : World)
      → w.now ≤ env.add_days options.expires_in_days w.now
      → store_invite env options user_id accounts w ≡ returned (raw_token, i) w'
      → validate_token env raw_token options.email w' ≡ returned i w'
  unfolding store_invite
  store_invite-redeemable options user_id raw_token accounts i w w' later e =
      go (Invites.create env fields accounts w) refl
    where
      fields : CreateInvite
      fields = record {
        token = env.hash_sha256 (env.random_token w.created);
        email = options.email;
        is_admin = or_else options.is_admin false;
        expires_at = env.add_days options.expires_in_days w.now;
        created_by_user_id = user_id;
      }

      go :
          (o : Outcome Invite)
          → Invites.create env fields accounts w ≡ o
          → validate_token env raw_token options.email w' ≡ returned i w'
      go (threw x v) p = absurd (ground arith)
      go (returned j v) p =
          let (read, (unused, unrevoked), (expiry, address), time) =
            create_found env fields accounts w v j p in
          (validate_token_iff env raw_token options.email w' i).1 (
            ground arith,
            record {
              unrevoked = ground arith;
              unused = ground arith;
              unexpired = ground arith;
              own_address = ground (arith, is_mismatch_self options.email);
            },
          )

  -- The raw token that `createToken` returns is accepted at once by `validateToken`, with the address
  -- that the invite is bound to and as the invite that was returned, where the days of validity lead
  -- to no earlier time.
  pub validate_token-create_token :
      (options : CreateInviteRequest) (user_id raw_token : String) (i : Invite) (w w' : World)
      → w.now ≤ env.add_days options.expires_in_days w.now
      → create_token env options user_id w ≡ returned (raw_token, i) w'
      → validate_token env raw_token options.email w' ≡ returned i w'
  unfolding create_token
  validate_token-create_token options user_id raw_token i w w' later e =
      go (check_accounts env options w) refl
    where
      stored :
          (accounts : List CreateInviteAccount) (v : World) (o : Outcome (Unit {0}))
          → check_accounts env options w ≡ returned accounts v
          → supersede env options.email v ≡ o
          → validate_token env raw_token options.email w' ≡ returned i w'
      stored accounts v (threw x u) p q = absurd (ground arith)
      stored accounts v (returned x u) p q =
          store_invite-redeemable options user_id raw_token accounts i u w'
            (ground (arith, check_accounts-final options w, supersede-now options.email v))
            (ground arith)

      go :
          (o : Outcome (List CreateInviteAccount))
          → check_accounts env options w ≡ o
          → validate_token env raw_token options.email w' ≡ returned i w'
      go (threw x v) p = absurd (ground arith)
      go (returned accounts v) p = stored accounts v (supersede env options.email v) p refl
