-- ===== src/UserService/Changing/Outcomes.antt =====
-- What the changes of a user leave.

use home_gate.Database.Keys.{find-remove_self, find-remove_wider}
use home_gate.SubscriptionLifecycle.Expiring.{disable_all_for_user}
use home_gate.UserService.Changing.{soft_delete_user, hard_delete_user, set_user_admin}
use home_gate.UserService.{UserResponseForAdmin}
use home_gate.Repositories.Users.Laws.{update_by_id_found}
use home_gate.Environment.{Environment}
use home_gate.Effects.{Outcome, ◌>>◌, then_returned, returned, threw}
use home_gate.Model.{UserStatus, is_active_user, User, World}
use home_gate.Common.{
  String, ◌≡◌, refl, sym, ◌∙◌, ◌⊎◌, inl, inr, Bool, true, false, Option, none, some, arith, ◌==◌,
  Bool-cases, Option-cases, holds, is_value, unless, nat_eq, string_eq,
}
use home_gate.Repositories.Users
use home_gate.Repositories.Sessions

module _ (env : Environment) where
  -- Administrator rights are granted to active users only; whoever asks for it, they are as asked
  -- for afterwards, and nothing else of the user has changed.
  pub set_user_admin-guards :
      (id : String) (is_admin : Bool) (by : String) (answer : Option UserResponseForAdmin)
      (w w' : World)
      → set_user_admin env id is_admin by w ≡ returned answer w'
      → (u : User) × (Users.find_by_id env id w ≡ some u)
        × ((is_admin ≡ true) → is_active_user u.status ≡ true)
        × (Users.find_by_id env id w' ≡ some (record u { is_admin = is_admin }))
        × (w' ≡ record w { users = w'.users })
  unfolding set_user_admin Users.set_admin Users.update_by_id
  set_user_admin-guards id is_admin by answer w w' e =
      elim (Option-cases (Users.find_by_id env id w)) [
        | inl f ↦ absurd (ground arith)
        | inr (u, f) ↦
            let (v, made, read, rest) =
              update_by_id_found env w id (λ u. record u { is_admin = is_admin }) u f (λ r. refl) in
            (u, f, ground arith, ground arith, ground arith)
      ]

  -- The last two steps, where they return true.
  deleted_after :
      (id : String) (w w' : World)
      → (Sessions.delete_by_user_id env id >> Users.soft_delete env id) w ≡ returned true w'
      → (u : User) × (Users.find_by_id env id w' ≡ some u)
        × (u.status ≡ UserStatus.deleted)
        × (u.deleted_at ≡ some w'.now)
        × (env.sessions.find (λ s. is_value s.user_id id) w'.sessions ≡ none)
  unfolding Sessions.delete_by_user_id Users.soft_delete Users.update_by_id
  deleted_after id w w' e =
      let v : World = record w {
        sessions = env.sessions.remove (λ s. is_value s.user_id id) w.sessions;
      } in
      elim (Option-cases (Users.find_by_id env id v)) [
        | inl f ↦ absurd (ground arith)
        | inr (u, f) ↦
            let (x, made, read, rest) =
              update_by_id_found env v id
                (λ u. record u { status = UserStatus.deleted; deleted_at = some v.now }) u f
                (λ r. refl) in
            let same : w' ≡ x = ground arith in
            (
              record u { status = UserStatus.deleted; deleted_at = some v.now },
              ground arith,
              refl,
              ground arith,
              ground (arith, find-remove_self env.sessions (λ s. is_value s.user_id id) w.sessions),
            )
      ]

  -- However the vendors answer, once a deletion has returned true the user is stored as deleted
  -- at this time, and has no session left.
  pub soft_delete_user-deleted :
      (id : String) (w w' : World)
      → soft_delete_user env id w ≡ returned true w'
      → (u : User) × (Users.find_by_id env id w' ≡ some u)
        × (u.status ≡ UserStatus.deleted)
        × (u.deleted_at ≡ some w'.now)
        × (env.sessions.find (λ s. is_value s.user_id id) w'.sessions ≡ none)
  unfolding soft_delete_user
  soft_delete_user-deleted id w w' e = go (disable_all_for_user env id w) refl
    where
      go :
          (o : Outcome (Unit {0}))
          → disable_all_for_user env id w ≡ o
          → (u : User) × (Users.find_by_id env id w' ≡ some u)
            × (u.status ≡ UserStatus.deleted)
            × (u.deleted_at ≡ some w'.now)
            × (env.sessions.find (λ s. is_value s.user_id id) w'.sessions ≡ none)
      go (threw x v) p = absurd (ground arith)
      go (returned a v) p = deleted_after id v w' (
          sym (
            then_returned (disable_all_for_user env id)
              (Sessions.delete_by_user_id env id >> Users.soft_delete env id) w v a p)
          ∙ e)

  -- Nothing that belonged to the user is left.
  pub record IsGone (id : String) (w : World) : Type 0 where
    pub user : Users.find_by_id env id w ≡ none
    pub subscriptions : env.subscriptions.find (λ s. s.user_id == id) w.subscriptions ≡ none
    pub accounts : env.accounts.find (λ a. a.user_id == id) w.accounts ≡ none
    pub policies : env.policies.find (λ p. p.user_id == id) w.policies ≡ none
    pub identities : env.identities.find (λ i. i.user_id == id) w.identities ≡ none
    pub sessions : env.sessions.find (λ s. holds (λ u. u == id) s.user_id) w.sessions ≡ none

  cascade_delete-IsGone :
      (id : String) (w : World) → IsGone id (Users.cascade_delete env (λ u. u == id) w)
  unfolding Users.cascade_delete Users.find_by_id
  cascade_delete-IsGone id w = record {
    user = find-remove_self env.users (λ u. u.id == id) w.users;
    subscriptions =
        find-remove_wider env.subscriptions (λ s. s.user_id == id) _ w.subscriptions
          (λ s e. ground arith);
    accounts =
        find-remove_wider env.accounts (λ a. a.user_id == id) _ w.accounts (λ a e. ground arith);
    policies = ground (
      arith,
      find-remove_self env.policies (λ p. p.user_id == id) w.policies,
      env.policies.find-update (λ p. p.user_id == id) (λ p. true)
          (λ p. record p { created_by_user_id = unless (λ u. u == id) p.created_by_user_id })
          (env.policies.remove (λ p. p.user_id == id) w.policies) (λ r. refl),
    );
    identities = find-remove_self env.identities (λ i. i.user_id == id) w.identities;
    sessions = find-remove_self env.sessions (λ s. holds (λ u. u == id) s.user_id) w.sessions;
  }

  -- A hard deletion that returns true leaves neither the user nor any row that belongs to it, and
  -- one that returns false has changed nothing; it never throws.
  pub hard_delete_user-IsGone :
      (id : String) (w : World)
      → (w' : World) × (((hard_delete_user env id w ≡ returned true w') × IsGone id w')
          ⊎ ((hard_delete_user env id w ≡ returned false w') × (w' ≡ w)))
  unfolding hard_delete_user Users.hard_delete Users.find_by_id
  hard_delete_user-IsGone id w = elim (Option-cases (Users.find_by_id env id w)) [
    | inl f ↦ (w, inr (ground arith, refl))
    | inr (u, f) ↦ elim (Bool-cases (Users.is_held env (λ u. u == id) w)) [
      | inl g ↦ (w, inr (ground arith, refl))
      | inr g ↦ (
        Users.cascade_delete env (λ u. u == id) w,
        inl (ground arith, cascade_delete-IsGone id w),
      )
    ]
  ]
