-- ===== src/Tests.antt =====
-- Runs at concrete inputs, and the theorems at such inputs.
mod Data
mod Api
mod DeepCopy
mod Client
mod Informers
mod Listers
mod Cmd
mod Flb
mod Sink
mod Webhook
mod Metric
mod Event
