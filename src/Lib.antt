-- ===== src/Lib.antt =====
-- VPN Director's server (server/internal): the decisions of the daemons that route LAN clients
-- through Xray or through Tunnel Director's tunnels.
--
-- The daemons keep one configuration file, vpn-director.json, and every routing decision is a
-- change of it: the subscription watch moves the Xray clients onto a tunnel while Xray is down and
-- back afterwards, and the user's moves of single clients cut across that. VpnConfig models
-- server/internal/vpnconfig, a file or two of it to a module:
--   VpnConfig.Address: validate.go and the address functions of failover.go, over texts that are
--     lists of code points, with the IPv4 part of Go's net.ParseIP and net.ParseCIDR.
--   VpnConfig.Config: the configuration of vpnconfig.go, its records and CollectClients.
--   VpnConfig.Failover: what failover.go reads of a failover.
--   VpnConfig.Moves: what failover.go changes: stage, commit, extend, ensure, restore, detach.
--   VpnConfig.Clients: clients.go, the user's move of one client.
--   VpnConfig.Paused: RepointPausedClients of vpnconfig.go.
--   VpnConfig.Pending: pending_restore.go, the restore on record until its apply has finished.
--   VpnConfig.Exits: the tunnels that a failover may use, of failover.go.
--   VpnConfig.Servers: the subscriptions' servers and the record of the active one, of
--     vpnconfig.go and substore.go. Server.Group and IdentityMark, JSON and SHA-256, are the
--     parameter Kinds; a time is a number of seconds.
--   VpnConfig.Names: the names and ids of subscriptions, of substore.go.
--   VpnConfig.Pairs: pairServers of identity.go; ServerIdentity and looseIdentity, hashes of decoded
--     JSON, are the parameter Identities.
--   VpnConfig.Refresh: MergeRefresh and followRenames of refresh.go.
--   VpnConfig.Store: the configuration and the subscription files under the config lock
--     (service/config.go, substore.go). A Disk says which file operations succeed in one update.
--   VpnConfig.Operations: the refresh, the rename, the deletion and the recorded error of subops.go.
-- Subwatch models decisions of server/internal/subwatch, the watch that picks the server Xray runs
-- on:
--   Subwatch.Choice: chosenIndex and pickOrder of watch.go, the listed server that a record names.
--   Subwatch.Order: walkOrder of order.go, the order in which a walk tries the servers.
--   Subwatch.Best: refFor and orderBest of best.go.
--   Subwatch.Actuality: classifyActive of actuality.go.
--   Subwatch.Copies: PerAddress of endpoint/endpoint.go, dialIP of reach.go, serverID of watch.go.
--   Subwatch.Returns: aliveFor and rollbackOrder of return.go, and the candidates of replaceActive of
--     keeper.go, in their order.
--   Subwatch.Fast: exactFastServer, fastCandidatePresent and fastEvidenceStatus of fast.go.
--   Subwatch.Watch: the Watch of watch.go as a state that its methods pass on, with update, apply and
--     the permission to act (mutation.go, outboundAllowedNow of fast.go). Each answer of the world,
--     such as whether a script succeeded, is asked for by one call and is a function of the call's
--     number; at any call outside the config lock another process may write the configuration. The
--     writes, applies and messages are logged with the number of their call.
--   Subwatch.Watch.Deaths: when a failing outbound counts as dead, with checkReach of reach.go and
--     the counters of return.go that a death or a selection settles.
--   Subwatch.Watch.Guards: superseded, probedServer and, of recovery.go, pendingRestoreGuard.
--   Subwatch.Watch.Notes: notify.
--   Subwatch.Watch.Fallback and Subwatch.Watch.Outbound: failOutbound and what a tick does with the
--     tunnel of a failover: applyFailover, extendFailover, watchFallback, retryOrSwitchFallback.
--   Subwatch.Watch.Commit and Subwatch.Watch.Restore: commitRestore, and finalizeRestore and
--     reconcileRestore of recovery.go.
--   Subwatch.Watch.Tick: Tick up to its wave of downloads, the probe of a working outbound or the
--     keeper.
--   Subwatch.Watch.Moves: the abstract machine of what the watch may write; Subwatch.Watch.Acts:
--     ticks, deaths and restores in any order.
-- Notifications models server/internal/notifications, the events of the watch that each chat is to be
-- sent, numbered by leases of ids that are saved before the ids are given out:
--   Notifications.Events: boundedEvents and the ids of events, of store.go and of
--     watchdapi/notifications_server.go.
--   Notifications.State and Notifications.Recipients: what the operations of store.go and
--     recipients.go do to the store while they hold its lock.
--   Notifications.Saves: saveLocked, restore and validSavedState of persist.go, over decoded states.
--   Notifications.Pages: Pending of store.go, and a reader that follows its cursors.
--   Notifications.Operations: Publish, Ack and ReplaceRecipients with their saves, as one goroutine
--     runs them. A function from the number of a save to an Attempt says when it is made and how
--     its write ends.
--   Notifications.History: the store and its file under any order of those steps, of writes that
--     succeed or fail, and of crashes.
-- Monitor models server/internal/monitor, which checks every server of the subscriptions:
--   Monitor.Settings: settings.go, and Monitor.Entries: entry.go, the record of one endpoint.
--   Monitor.State and Monitor.Results: what monitor.go does with an answer and with the evidence
--     that the WAN is up. What the control addresses say and which sessions have exited are
--     arguments.
--   Monitor.Dispatch and Monitor.Sets: which checks start, and the set of endpoints, of monitor.go.
--   Monitor.Evidence: evidence.go, results with a proof that they still apply. Its Operations lists
--     what monitor.go does to a monitor between two looks at its evidence.
-- Updater.Versions models server/internal/updater/version.go. The largest int is a parameter.
-- Prelude holds the names that the modules share, Tests the runs on concrete configurations.
--
-- A Go method that mutates a *VPNDirectorConfig is a function from the configuration to the
-- configuration, with its result beside it; a function of the model has the Go function's name in
-- snake case. A configuration is never nil. Loops over slices are structural recursions. Only the
-- turns of walkOrder run on fuel, one pass more than there are servers: every pass but the last places
-- a server. publishAt runs two rounds: a lease that is saved lets the second end. A drain runs as
-- many rounds as events wait. A chat id is a number, of which the code reads equality, order and whether
-- it is zero, a map an association list, and an event id the pair of its epoch and its sequence. The epoch that
-- a process draws at random is a parameter of its start, and new. An index or a count that is -1 in Go is none, and
-- so is a zero time. strconv.Itoa runs on twenty digits of fuel, enough for 64 bits.
--
-- Not modelled: of the watch what a tick does past the probe of a working outbound, the wave, the walk,
-- the keeper's tick, the status and the goroutine that ends the context of a tick; the JSON encoding and the bytes of files, logging, goroutines and locks (an operation is
-- one whole update under the config lock), the shell scripts, the web front end, and Go's IPv6
-- parsing, which no client address reaches; of the monitor the ticks, the start and
-- the crashes of the prober, Build, and the wait of CheckEvidence; of the notification store openLocked (a store whose
-- path is not known yet), ObserveSubscriptions, and the files of the backup. The other packages of server/internal have no
-- module here, and of subwatch, updater and vpnconfig no function but those named above.
pub mod Prelude
pub mod VpnConfig
pub mod Subwatch
pub mod Notifications
pub mod Monitor
pub mod Updater
mod Tests
