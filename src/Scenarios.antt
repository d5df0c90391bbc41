-- ===== src/Scenarios.antt =====
-- Runs at concrete inputs, by component: each applies a theorem where its hypotheses hold.
mod Manifests
mod Machines
mod Commands
mod Players
mod Fallbacks
mod Policies
mod Gateways
mod Loops
mod Ladders
mod Relays
mod Windows
mod Systems
mod Cameras
mod Rules
mod Approvals
mod Intents
mod Libraries
mod Campaigns
mod Snapshots
mod Uptimes
mod Validations
