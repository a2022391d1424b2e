-- ===== src/Routers/Bystanders.antt =====
-- The endpoints of tenants, quotas and webhooks leave the usage events and the stored responses as they
-- are.
use flyrank_backend_capstone.Prelude.{ℕ, String}
use flyrank_backend_capstone.Schemas.{TenantCreate}
use flyrank_backend_capstone.Store.Schema.{
  Tables, integrity_error, data_error, pending_rollback_error,
}
use flyrank_backend_capstone.Store.Database.{contract}
use flyrank_backend_capstone.Store.Action.{Env, Exception, db_error}
use flyrank_backend_capstone.Store.Preserves.{Preserves}
use flyrank_backend_capstone.Store.Bystander.{IsBystander, bystander}
use flyrank_backend_capstone.Webhooks.{
  Event, handle_event, handle_checkout_completed, handle_subscription_updated,
  handle_subscription_deleted, mark_processed_or_skip, already_processed, apply_event, dispatch,
  get_tenant_by_customer_id, get_plan_by_stripe_price, get_subscription_by_stripe_id, price_id,
  required, synced,
}
use flyrank_backend_capstone.Webhooks.Uncommitted.{handlers, AllKeep-dispatch, Preserves-handler}
use flyrank_backend_capstone.Routers.{get_quota_status}
use flyrank_backend_capstone.Routers.Tenants.{create_tenant, read_tenant}
use flyrank_backend_capstone.Routers.Stripe.{
  Verified, verified, value_error, signature_verification_error, handle_verified,
}

module _ {t : Tables} where
  pub get_quota_status-IsBystander :
      (id : ℕ) → Preserves (IsBystander t) (get_quota_status contract id)
  unfolding get_quota_status
  get_quota_status-IsBystander id = search bystander depth 30

  pub read_tenant-IsBystander : (id : ℕ) → Preserves (IsBystander t) (read_tenant contract id)
  unfolding read_tenant
  read_tenant-IsBystander id = search bystander depth 30

  pub create_tenant-IsBystander :
      (E : Env) (payload : TenantCreate)
      → Preserves (IsBystander t) (create_tenant E contract payload)
  unfolding create_tenant
  create_tenant-IsBystander E payload = search bystander depth 40

  already_processed-IsBystander :
      (e : Exception) → Preserves (IsBystander t) (already_processed contract e)
  unfolding already_processed
  already_processed-IsBystander (db_error integrity_error) = search bystander
  already_processed-IsBystander (db_error data_error) = search bystander
  already_processed-IsBystander (db_error pending_rollback_error) = search bystander
  already_processed-IsBystander _ = search bystander

  updated-IsBystander :
      (event : Event) → Preserves (IsBystander t) (handle_subscription_updated contract event)
  unfolding handle_subscription_updated get_subscription_by_stripe_id required synced
  updated-IsBystander event = search (bystander, handlers) depth 30

  deleted-IsBystander :
      (event : Event) → Preserves (IsBystander t) (handle_subscription_deleted contract event)
  unfolding handle_subscription_deleted get_subscription_by_stripe_id required
  deleted-IsBystander event = search (bystander, handlers) depth 30

  module _ (E : Env) where
    checkout-IsBystander :
        (event : Event) → Preserves (IsBystander t) (handle_checkout_completed E contract event)
    unfolding handle_checkout_completed get_tenant_by_customer_id get_plan_by_stripe_price price_id
    checkout-IsBystander event = search (bystander, handlers) depth 40

    mark-IsBystander :
        (id type : String) → Preserves (IsBystander t) (mark_processed_or_skip E contract id type)
    unfolding mark_processed_or_skip
    mark-IsBystander id type = search (bystander, already_processed-IsBystander) depth 20

    apply_event-IsBystander :
        (event : Event) → Preserves (IsBystander t) (apply_event E contract event)
    unfolding apply_event
    apply_event-IsBystander event =
        Preserves-handler (IsBystander t) (dispatch E contract event)
          (AllKeep-dispatch (IsBystander t) E event (checkout-IsBystander event)
            (updated-IsBystander event) (deleted-IsBystander event))
          (search bystander depth 20) (λ handler k. search bystander depth 20)

    pub handle_event-IsBystander :
        (event : Event) → Preserves (IsBystander t) (handle_event E contract event)
    unfolding handle_event
    handle_event-IsBystander event =
        search (bystander, mark-IsBystander, apply_event-IsBystander) depth 20

    pub handle_verified-IsBystander :
        (v : Verified) → Preserves (IsBystander t) (handle_verified E contract v)
    handle_verified-IsBystander (verified event) = handle_event-IsBystander event
    handle_verified-IsBystander value_error = search bystander
    handle_verified-IsBystander signature_verification_error = search bystander
