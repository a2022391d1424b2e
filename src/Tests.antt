-- ===== src/Tests.antt =====
-- The theorems at concrete inputs, and runs of the definitions.
mod Samples
mod PricingRuns
mod QuotaRuns
mod MeteringRuns
mod SessionRuns
mod RaceRuns
mod WebhookRuns
mod ServiceRuns
mod RenewalRuns
mod RouterRuns
mod AppRuns
mod UsageRuns
mod LimitRuns
mod MigrationRuns
