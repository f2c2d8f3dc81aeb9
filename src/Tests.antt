-- ===== src/Tests.antt =====
-- Maps, a stand-in for btcd, and runs.
mod Json
mod Maps
mod Machine
mod Chains
mod ChainRuns
mod WireRuns
mod ManagerRuns
mod WalletRuns
mod ProgramRuns
mod StartRuns
mod ClientRuns
mod ForkRuns
mod StoreRuns
mod WriteRuns
mod AllianceRuns
mod VoteRuns
