-- ===== src/Store/Bystander.antt =====
-- Actions that touch neither the usage events nor the stored responses.
use flyrank_backend_capstone.Prelude.{◌≡◌, refl, arith}
use flyrank_backend_capstone.Models.{Tenant, Subscription, ProcessedWebhook}
use flyrank_backend_capstone.Store.Schema.{
  Tables, Change, new_tenant, new_subscription, new_usage_event, new_idempotency_record,
  new_processed_webhook, set_tenant, set_subscription, apply_change, insert_tenant,
  insert_subscription, insert_processed_webhook,
}
use flyrank_backend_capstone.Store.Database.{View, contract, opened}
use flyrank_backend_capstone.Store.Action.{add, flush, commit, rollback}
use flyrank_backend_capstone.Store.Preserves.{Preserves, preserves}
use flyrank_backend_capstone.Store.Kept.{
  IsKept, KeptBy, add-IsKept, flush-IsKept, commit-IsKept, rollback-IsKept,
}

-- The usage events and the stored responses of `u` are those of `t`.
abbrev pub SameUsage : Tables → Tables → Type 0
SameUsage t u = (u.usage_events ≡ t.usage_events) × (u.idempotency_records ≡ t.idempotency_records)

abbrev pub IsBilling : Change → Type 0
IsBilling (new_usage_event e) = ⊥
IsBilling (new_idempotency_record r) = ⊥
IsBilling _ = Unit

abbrev pub IsBystander : Tables → View → Type 0
IsBystander = IsKept IsBilling SameUsage

SameUsage-KeptBy : KeptBy IsBilling SameUsage
unfolding apply_change insert_tenant insert_subscription insert_processed_webhook
SameUsage-KeptBy (new_tenant r) t u v b h e = ground arith
SameUsage-KeptBy (new_subscription r) t u v b h e = ground arith
SameUsage-KeptBy (new_usage_event r) t u v b h e = absurd b
SameUsage-KeptBy (new_idempotency_record r) t u v b h e = absurd b
SameUsage-KeptBy (new_processed_webhook w) t u v b h e = ground arith
SameUsage-KeptBy (set_tenant r) t u v b h e = ground arith
SameUsage-KeptBy (set_subscription r) t u v b h e = ground arith

module _ {t : Tables} where
  pub flush-IsBystander : Preserves (IsBystander t) (flush contract)
  flush-IsBystander = flush-IsKept SameUsage-KeptBy

  pub commit-IsBystander : Preserves (IsBystander t) (commit contract)
  commit-IsBystander = commit-IsKept SameUsage-KeptBy

  pub rollback-IsBystander : Preserves (IsBystander t) (rollback contract)
  rollback-IsBystander = rollback-IsKept SameUsage-KeptBy

  pub add_tenant-IsBystander :
      (r : Tenant) → Preserves (IsBystander t) (add contract (new_tenant r))
  add_tenant-IsBystander r = add-IsKept SameUsage-KeptBy (new_tenant r) tt

  pub add_subscription-IsBystander :
      (r : Subscription) → Preserves (IsBystander t) (add contract (new_subscription r))
  add_subscription-IsBystander r = add-IsKept SameUsage-KeptBy (new_subscription r) tt

  pub add_webhook-IsBystander :
      (w : ProcessedWebhook) → Preserves (IsBystander t) (add contract (new_processed_webhook w))
  add_webhook-IsBystander w = add-IsKept SameUsage-KeptBy (new_processed_webhook w) tt

  pub set_tenant-IsBystander :
      (r : Tenant) → Preserves (IsBystander t) (add contract (set_tenant r))
  set_tenant-IsBystander r = add-IsKept SameUsage-KeptBy (set_tenant r) tt

  pub set_subscription-IsBystander :
      (r : Subscription) → Preserves (IsBystander t) (add contract (set_subscription r))
  set_subscription-IsBystander r = add-IsKept SameUsage-KeptBy (set_subscription r) tt

pub ruleset bystander = (
  preserves, flush-IsBystander, commit-IsBystander, rollback-IsBystander, add_tenant-IsBystander,
  add_subscription-IsBystander, add_webhook-IsBystander, set_tenant-IsBystander,
  set_subscription-IsBystander,
)

pub opened-IsBystander : (t : Tables) → IsBystander t (opened t)
opened-IsBystander t = record { stored = (refl, refl); visible = (refl, refl); pending = tt }
