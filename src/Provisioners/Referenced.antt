-- ===== src/Provisioners/Referenced.antt =====
-- referencedAccount.provisioner.ts: the account source must be active.
use home_gate.Common.{◌≡◌, none, some, [], ◌∷◌, arith, if◌then◌else◌, holds}
use home_gate.Model.{is_active, Subscription, World}
use home_gate.Effects.{M, final, bad_request, http, returned, threw}
use home_gate.Environment.{Environment}
use home_gate.Repositories.Subscriptions
use home_gate.Provisioners.Managed.{ProvisionContext, message}

module _ (env : Environment) where
  pub validate : ProvisionContext → M ProvisionContext
  validate ctx w = elim ctx.service.account_source_service_id [
    | none ↦
        threw
          (http bad_request (
            message (
              "Service '" ∷ ctx.service.name
              ∷ "' is misconfigured: a referenced service must name an account source" ∷ [])))
          w
    | some source_service_id ↦
        if holds (λ (s : Subscription). is_active s.status)
          (Subscriptions.find env ctx.user_id source_service_id w)
        then returned ctx w
        else threw
            (http bad_request (
              message (
                "A subscription to the account provider for '" ∷ ctx.service.name
                ∷ "' is required before subscribing" ∷ [])))
            w
  ]

  -- The check changes nothing.
  pub validate-final : (ctx : ProvisionContext) (w : World) → final (validate ctx w) ≡ w
  unfolding validate
  validate-final ctx w = ground arith

  pub validate-same :
      (ctx ctx' : ProvisionContext) (w w' : World) → validate ctx w ≡ returned ctx' w' → ctx' ≡ ctx
  unfolding validate
  validate-same ctx ctx' w w' e = ground arith
