-- ===== src/Webhooks/Handled.antt =====
-- Changes of tenants and subscriptions leave alone the plans, the usage events, the stored responses, and the
-- processed events.
use flyrank_backend_capstone.Prelude.{◌≡◌, refl, List, All, arith}
use flyrank_backend_capstone.Models.{Tenant, Subscription}
use flyrank_backend_capstone.Store.Schema.{
  Tables, Change, new_tenant, new_subscription, new_usage_event, new_idempotency_record,
  new_processed_webhook, set_tenant, set_subscription, applied, apply_change, apply_changes,
  insert_tenant, insert_subscription,
}
use flyrank_backend_capstone.Store.Database.{View, contract, opened}
use flyrank_backend_capstone.Store.Action.{add, flush, commit}
use flyrank_backend_capstone.Store.Preserves.{Preserves, preserves}
use flyrank_backend_capstone.Store.Kept.{
  IsKept, KeptBy, apply_changes-Same, add-IsKept, flush-IsKept, commit-IsKept,
}
use flyrank_backend_capstone.Webhooks.Uncommitted.{IsHandled}

-- The plans, the usage events, the stored responses and the processed events of `u` are those of `t`.
pub record SameRecords (t u : Tables) : Type 0 where
  pub plans : u.plans ≡ t.plans
  pub usage_events : u.usage_events ≡ t.usage_events
  pub idempotency_records : u.idempotency_records ≡ t.idempotency_records
  pub processed_webhooks : u.processed_webhooks ≡ t.processed_webhooks

SameRecords-KeptBy : KeptBy IsHandled SameRecords
unfolding apply_change insert_tenant insert_subscription
SameRecords-KeptBy (new_tenant r) t u v b h e = ground arith
SameRecords-KeptBy (new_subscription r) t u v b h e = ground arith
SameRecords-KeptBy (new_usage_event r) t u v b h e = absurd b
SameRecords-KeptBy (new_idempotency_record r) t u v b h e = absurd b
SameRecords-KeptBy (new_processed_webhook w) t u v b h e = absurd b
SameRecords-KeptBy (set_tenant r) t u v b h e = ground arith
SameRecords-KeptBy (set_subscription r) t u v b h e = ground arith

SameRecords-refl : (t : Tables) → SameRecords t t
SameRecords-refl t = record {
  plans = refl;
  usage_events = refl;
  idempotency_records = refl;
  processed_webhooks = refl;
}

pub apply_changes-SameRecords :
    (cs : List Change) (t u : Tables)
    → All IsHandled cs
    → apply_changes cs t ≡ applied u
    → SameRecords t u
apply_changes-SameRecords cs t u b e =
    apply_changes-Same SameRecords-KeptBy cs t t u b (SameRecords-refl t) e

-- A session that has sent such changes alone.
abbrev pub IsHandling : Tables → View → Type 0
IsHandling = IsKept IsHandled SameRecords

pub opened-IsHandling : (t : Tables) → IsHandling t (opened t)
opened-IsHandling t = record {
  stored = SameRecords-refl t;
  visible = SameRecords-refl t;
  pending = tt;
}

module _ {t : Tables} where
  pub flush-IsHandling : Preserves (IsHandling t) (flush contract)
  flush-IsHandling = flush-IsKept SameRecords-KeptBy

  pub commit-IsHandling : Preserves (IsHandling t) (commit contract)
  commit-IsHandling = commit-IsKept SameRecords-KeptBy

  pub add_tenant-IsHandling : (r : Tenant) → Preserves (IsHandling t) (add contract (new_tenant r))
  add_tenant-IsHandling r = add-IsKept SameRecords-KeptBy (new_tenant r) tt

  pub add_subscription-IsHandling :
      (s : Subscription) → Preserves (IsHandling t) (add contract (new_subscription s))
  add_subscription-IsHandling s = add-IsKept SameRecords-KeptBy (new_subscription s) tt

pub ruleset handling = (
  preserves, flush-IsHandling, commit-IsHandling, add_tenant-IsHandling,
  add_subscription-IsHandling,
)
