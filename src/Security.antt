-- ===== src/Security.antt =====
-- The firewall and the connection tracker of pkg/security/firewall.go: the rules in their order and
-- the verdicts (Firewall, Checks, Priority, Verdicts, Bans), and the connections (Tracker,
-- Connections, Admission), with their histories (RuleCalls, History), also of calls at once (Slack,
-- Races).
mod Firewall
mod Checks
mod Tracker
mod Priority
mod Verdicts
mod Bans
mod Connections
mod RuleCalls
mod Admission
mod History
mod Slack
mod Races
mod Drift
mod Tests
