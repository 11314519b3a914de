-- ===== src/Examples.antt =====
-- Concrete scenarios, timelines and buckets, and the theorems of the other modules at them.
mod Milli
mod Loads
mod Barriers
mod Buckets
mod Reports
mod Verdicts
mod Clusters
mod Lifecycles
mod Workers
mod Fleets
mod Journeys
