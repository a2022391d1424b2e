-- ===== src/Quota/Rollup.antt =====
-- The period rollup of `QuotaEnforcer._sum_period_usage` and of the quota endpoint.
