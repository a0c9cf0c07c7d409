-- ===== src/Examples.antt =====
-- The theorems on concrete inputs.
mod Data
mod Informers
mod Schedulers
mod Autoscalers
mod ReplicaSets
mod Servers
mod Agents
mod Routers
mod Jobs
mod Targets
mod Ingresses
