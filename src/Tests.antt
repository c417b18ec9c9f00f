-- ===== src/Tests.antt =====
-- Concrete data, evaluations of the definitions, and the theorems at inputs that meet their
-- hypotheses.
mod Sample
mod Server
mod Policies
mod Algorithms
mod Local
mod Limiter
mod Service
mod Cluster
mod Shell
mod Drivers
mod MultiRegion
mod Api
mod Serving
mod SetServer
mod Scripts
mod Reports
mod Schema
mod ConfigControl
