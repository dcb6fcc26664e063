-- ===== src/Lib.antt =====
-- The worldping API: what checks are valid, how their alerts are scheduled, executed, stored and mailed,
-- and how checks are handed to the sockets of probes.
--
-- The parts. An endpoint has checks. A check is validated (pkg/models/endpoint.go) before the store
-- writes it with its routes (pkg/services/sqlstore/endpoint.go). Every second the dispatcher
-- (pkg/alerting/schedule.go) asks the store for the checks that are due and queues a job for each. An
-- executor (pkg/alerting/executor.go) asks graphite for the series of a job, evaluates them, hands the
-- result to storeResults (pkg/alerting/check_state.go) and publishes three metrics. storeResults writes
-- the state to the check table and sends a change of state on to handleStateChange, which mails it. The
-- sockets of the probes (pkg/api/sockets/probe.go) are sent the checks of their probe, and the changes of
-- an endpoint's checks as they come (pkg/api/socketio.go). Probes, their tags and their sessions are in
-- the store too (pkg/services/sqlstore/probe.go).
--
-- Prelude        names that are passed on; Boolean tests, lists measured by native numbers, results of
--                calls that may fail (Outcome), 64-bit integers (Int), text as character codes (Text),
--                maps with string keys (Assoc), sets as lists of keys (Sets)
-- Models/Check   pkg/models/endpoint.go, monitor.go, alerting.go: CheckHealthSettings, CheckForAlertDTO,
--                AlertingJob, CheckEvalResult
-- Models/Settings  pkg/models/endpoint.go: the cases of the switches over a field's data type; Size has
--                the text of a download limit, Fields the tables and loops of validateHTTPSettings,
--                validateHTTPSSettings, validatePINGSettings and validateDNSSettings; Accept, Cases and
--                Local compare a loop with tests of single fields, Checks, Http and Gaps say what is
--                accepted
-- Models/Route   pkg/models/endpoint.go: CheckRoute.Validate and Check.Validate
-- Models/Monitors  pkg/models/v1Api.go and monitor.go, pkg/api/endpoint.go: ToV2Setting, MonitorTypes,
--                MonitorTypeToCheckTypeMap and checkTypeToId
-- Alerting/Eval  pkg/alerting/executor.go: eval; Runs has the longest run of readings above zero, and
--                Verdict the independent description of the result
-- Alerting/Execute  pkg/alerting/executor.go: execute and StoreResult
-- Alerting/Emails   pkg/alerting/check_state.go: handleStateChange
-- Alerting/Schedule pkg/alerting/schedule.go: getJobs and dispatchJobs, and the WHERE clause of
--                getChecksForAlerts in pkg/services/sqlstore/endpoint.go
-- Store/Session  pkg/services/sqlstore/shared.go: sessions
-- Store/CheckState  pkg/services/sqlstore/endpoint.go: updateCheckState and UpdateCheckState, and
--                storeResults of pkg/alerting/check_state.go
-- Store/Joined   a column of a left join, as pkg/services/sqlstore/endpoint.go and probe.go collect it
-- Store/Endpoint pkg/services/sqlstore/endpoint.go: Tags and Checks have what updateEndpoint makes of
--                the tags and the checks, Columns addCheck and the columns of updateCheck, Routes the
--                two index tables with their unique indexes, Reads scrutinizeState and ToDTO
-- Store/Probes   pkg/services/sqlstore/probe.go: Sessions has the sessions and the online flag (Trace the
--                runs of the operations and the map that they refine), Reads ToProbeDTO, getProbeById
--                and getProbeByName, Writes addProbe, updateProbe and deleteProbe
-- Store/Routing  pkg/services/sqlstore/probe.go: getProbesForCheck, and endpoint.go: getProbeChecks,
--                getProbeChecksWithEndpointSlug and validateCheckRoute (Usable)
-- Store/Migrator pkg/services/sqlstore/migrator/migrator.go: GetMigrationLog, Start and exec
-- Quotas         pkg/models/quotas.go, pkg/services/sqlstore/quota.go and pkg/middleware/quota.go:
--                GetQuotaScopes, QuotaReached, getOrgQuotaByTarget, getOrgQuotas, updateOrgQuota
-- Sockets/Refresh  pkg/api/sockets/probe.go: Refresh and OnDisconnection
-- Sockets/Register pkg/api/socketio.go: authenticate and register, on the tables of Store/Probes with the
--                quotas of Quotas
-- Sockets/Events pkg/api/socketio.go: HandleEndpointUpdated, HandleEndpointCreated, HandleEndpointDeleted
--                and EmitCheckEvent (Session)
-- Sockets/Cache  pkg/api/sockets/sockets.go: Set, Remove, Emit, refresh, UpdateProbe, refreshQueue
--
-- Conventions. Ids are natural numbers, which the database counts up from 1. An instant is the number of
-- nanoseconds since Go's zero time. int and int64 values that may be negative are integers, and their
-- products wrap round (wrap64) where the source multiplies. Text that is looked into is ASCII. The key
-- of a job in the cache is the pair that its text spells. A run-time panic is `none`. A map is an
-- association list; where Go ranges over a map the order is an argument, or does not matter.
--
-- Parameters. Graphite's response, the LRU cache, the readings of the clock, the rows that a query
-- returns, json.Number's Float64, comparisons of floats, the parsed version of a probe and xorm's Update
-- belong to other programs: they are arguments, and what is assumed of them stands in the theorems'
-- binders. Whether the database takes a statement or a commit is a flag in Store/Session and
-- Store/CheckState; in Store/Endpoint/Routes it refuses a row that a unique index
-- (pkg/services/sqlstore/migrations/check.go) has already; elsewhere it takes each statement that writes.
--
-- Bounds and fuel. The loop of a tick in dispatchJobs runs on the fuel `rounds`, the seconds that are
-- left and one more for the last test. storeResults tries three times, as the source does. Channels are
-- lists without a bound.
--
-- Not modelled: HTTP handlers and middleware, the wiring of the socket.io handlers, the loop that
-- refreshes idle sockets, the filters of the lists of probes and endpoints, the position of a probe on the
-- map, the handlers of the first API version, kafka, the schemas but for the unique indexes of the routes,
-- mail transport, settings and logging.
pub mod Prelude
pub mod Models
pub mod Alerting
pub mod Quotas
pub mod Store
pub mod Sockets
