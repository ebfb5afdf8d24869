-- ===== src/SubscriptionService/Subscribing/Results.antt =====
-- What `subscribe` leaves stored, whether it returns or throws.
use home_gate.Common.{
  ℕ, String, ◌≡◌, refl, sym, ap, ◌⊎◌, inl, inr, false, Option, none, some, List, arith,
}
use home_gate.SubscriptionService.{to_safe_error_message, mark_subscription_failed}
use home_gate.Environment.{Environment, OnlyCalls}
use home_gate.SubscriptionService.Subscribing.Rejections.{prepare-OnlyCalls, prepare-Guarded}
use home_gate.SubscriptionService.Subscribing.{
  SubscriptionCreateRequest, upsert_provisioning, activate, fail_provisioning, accounts_of, prepare,
  subscribe,
}
use home_gate.Repositories.Subscriptions.Laws.{
  find-same, find-after_update_self, update_found, find-after_create_self, create_new,
}
use home_gate.Model.{
  SubscriptionStatus, FailedOperation, Subscription, ExternalUserAccount, CreateSubscription,
  UpdateSubscription, of_subscription, World,
}
use home_gate.Effects.{Error, Outcome, try_catch, final, succeeds, returned, threw}
use home_gate.Repositories.Subscriptions
use home_gate.Repositories.Services
use home_gate.Provisioners.Managed.{ProvisionContext}
use home_gate.Cascade.Activation.{HasGranted}
use home_gate.SubscriptionService.Responses.{SubscriptionResponse}
use home_gate.SubscriptionService.Subscribing.Activating.{activate-IsActivation}

module _ (env : Environment) (request : SubscriptionCreateRequest) (user_id : String) where
  -- The row that `upsertProvisioning` leaves for the request expires thirty days from now.
  upsert-stored :
      (old : Option Subscription) (w : World)
      → Subscriptions.find env user_id request.service_id w ≡ old
      → (s : Subscription) × (w' : World) × (upsert_provisioning env old user_id request.service_id
            request.auto_renew
            (env.add_days 30 w.now)
            w
          ≡ returned s w')
        × (Subscriptions.find env user_id request.service_id w' ≡ some s)
        × (s.expires_at ≡ some (env.add_days 30 w.now))
  unfolding upsert_provisioning
  upsert-stored none w e =
      let fields : CreateSubscription = record {
        user_id = user_id;
        service_id = request.service_id;
        status = SubscriptionStatus.provisioning;
        auto_renew = request.auto_renew;
        expires_at = some (some (env.add_days 30 w.now));
        derived_from_subscription_id = none;
        provisioned_at = none;
      } in
      (
        Subscriptions.new_row (env.uuid w.created) w.now fields,
        Subscriptions.after_create env fields w,
        ground (arith, create_new env user_id request.service_id w fields refl refl e),
        find-after_create_self env user_id request.service_id w fields refl refl e,
        refl,
      )
  upsert-stored (some old) w e =
      let fields : UpdateSubscription = record (of_subscription user_id request.service_id) {
        status = some SubscriptionStatus.provisioning;
        auto_renew = request.auto_renew;
        expires_at = some (some (env.add_days 30 w.now));
        last_error = some none;
        failed_at = some none;
        cancelled_at = some none;
      } in
      (
        Subscriptions.updated w.now fields old,
        Subscriptions.after_update env fields w,
        ground (arith, update_found env user_id request.service_id w fields old refl refl e),
        find-after_update_self env user_id request.service_id w fields old refl refl e,
        refl,
      )

  -- The subscription is granted, or it is marked as failed while it was provisioned.
  abbrev pub IsAnswered : ℕ → Outcome SubscriptionResponse → Type 0
  IsAnswered t o =
      HasGranted env user_id request.service_id t (final o)
      ⊎ ((succeeds o ≡ false)
          × ((s : Subscription) × (Subscriptions.find env user_id request.service_id (final o)
                ≡ some s)
              × (s.status ≡ SubscriptionStatus.failed)
              × (s.failed_operation ≡ some FailedOperation.provisioning)))

  abbrev failure : Error → ℕ → UpdateSubscription
  failure e now = record (of_subscription user_id request.service_id) {
    status = some SubscriptionStatus.failed;
    failed_at = some (some now);
    failed_operation = some (some FailedOperation.provisioning);
    last_error = some (some (to_safe_error_message e));
  }

  fail_provisioning-marks :
      (e : Error) (s : Subscription) (w : World)
      → Subscriptions.find env user_id request.service_id w ≡ some s
      → fail_provisioning env {A = SubscriptionResponse} user_id request.service_id e w
        ≡ threw e (Subscriptions.after_update env (failure e w.now) w)
  unfolding fail_provisioning mark_subscription_failed
  fail_provisioning-marks e s w f =
      ground (arith, update_found env user_id request.service_id w (failure e w.now) s refl refl f)

  marked :
      (m : World → Outcome SubscriptionResponse) (w : World) (e : Error) (v : World)
      (s : Subscription)
      → m w ≡ threw e v
      → Subscriptions.find env user_id request.service_id v ≡ some s
      → {t : ℕ} → IsAnswered t (try_catch m (fail_provisioning env user_id request.service_id) w)
  marked m w e v s p f =
      rw (p, try_catch, fail_provisioning-marks e s v f)
        (inr (
          refl,
          (
            Subscriptions.updated v.now (failure e v.now) s,
            find-after_update_self env user_id request.service_id v (failure e v.now) s refl refl f,
            refl,
            refl,
          ),
        ))

  answer :
      (m : World → Outcome SubscriptionResponse) (s : Subscription) (t : ℕ) (w : World)
      (o : Outcome SubscriptionResponse)
      → m w ≡ o
      → HasGranted env user_id request.service_id t (final o)
        ⊎ ((succeeds o ≡ false)
            × (Subscriptions.find env user_id request.service_id (final o) ≡ some s))
      → IsAnswered t (try_catch m (fail_provisioning env user_id request.service_id) w)
  answer m s t w (returned r v) p (inl granted) = rw (p, try_catch) (inl granted)
  answer m s t w (returned r v) p (inr (h, f)) = absurd (ground arith)
  answer m s t w (threw e v) p (inl (row, f, granted)) = marked m w e v row p f
  answer m s t w (threw e v) p (inr (h, f)) = marked m w e v s p f

  activated_for :
      (ctx : ProvisionContext) (s : Subscription) (accounts : List ExternalUserAccount) {t : ℕ}
      (w : World)
      → ctx.user_id ≡ user_id
      → ctx.service.id ≡ request.service_id
      → Subscriptions.find env user_id request.service_id w ≡ some s
      → s.expires_at ≡ some t
      → HasGranted env user_id request.service_id t (final (activate env ctx s accounts w))
        ⊎ ((succeeds (activate env ctx s accounts w) ≡ false)
            × (Subscriptions.find env user_id request.service_id
                  (final (activate env ctx s accounts w))
                ≡ some s))
  activated_for ctx s accounts {t} w p q f h =
      rw (sym p, sym q) (activate-IsActivation env ctx s accounts t w (ground (arith, f)) h)

  same_answer :
      {t t' : ℕ} {o o' : Outcome SubscriptionResponse}
      → o ≡ o'
      → t ≡ t'
      → IsAnswered t' o'
      → IsAnswered t o
  same_answer p q h = rw (p, q) h

  -- Once the checks of `subscribe` have passed, either the user ends with a stored subscription that
  -- is active for thirty days from now, without a trace of an earlier failure, or `subscribe` throws
  -- and the stored subscription is marked as failed in its provisioning.
  pub subscribe-IsAnswered :
      (w w' : World) (ctx : ProvisionContext)
      → prepare env request user_id w ≡ returned ctx w'
      → IsAnswered (env.add_days 30 w.now) (subscribe env request user_id w)
  unfolding subscribe
  subscribe-IsAnswered w w' ctx e =
      let guarded = prepare-Guarded env request user_id w ctx w' e in
      let same : OnlyCalls w w' = ground (arith, prepare-OnlyCalls env request user_id w) in
      let (s, w'', stored, found, expiry) = upsert-stored ctx.existing_subscription w' (
        ground (
          arith,
          guarded.existing,
          find-same env user_id request.service_id w w' (ground arith),
        )) in
      let accounts = accounts_of env ctx.existing_subscription w' in
      let shape : subscribe env request user_id w
          ≡ try_catch (activate env ctx s accounts)
              (fail_provisioning env user_id request.service_id) w'' =
        ground arith in
      let time : w.now ≡ w'.now = ground arith in
      same_answer shape (ap (env.add_days 30) time) (
        answer (activate env ctx s accounts) s _ w'' _ refl (
          activated_for ctx s accounts w'' guarded.same_user
            (Services.find_by_id-id env request.service_id w ctx.service guarded.known_service)
            found expiry))
