-- ===== src/Lib.antt =====
-- go-ha, a Go library of automations for Home Assistant.
--
-- The program. A client holds a websocket to Home Assistant and delivers events; the application
-- feeds each to the entity cache and to the registry, which finds the automations that the event
-- concerns. An automation fires when one of its triggers does, its conditions hold and its policy
-- admits the run. Triggers of the other family compute their instants in advance and are driven by
-- the scheduler.
--
-- Which file models which part (paths from the repository's root):
--   Scheduling, Scheduling/Ticks, Scheduling/Interval, Scheduling/Daily: internal/scheduling/
--     (NextTime of the three triggers, NewIntervalTrigger)
--   Core/Event: core/event.go (parseEvent)
--   Core/Cache, Core/Cache/*: core/cache.go
--   Core/State, Core/State/Laws: core/state.go (seed is open_seed and close_seed, between which the
--     stream goes on; applyEvent, Get, ListEntities, Equals)
--   Core/Policy, Core/Policy/*: core/policy.go (run is one critical section; the goroutine it starts
--     takes its lock, lowers waiting, finishes and returns in steps that interleave in any order)
--   Core/Pending, Core/Pending/*: core/pending.go (arm, its timer's callback, disarm and stop as
--     actions in any order)
--   Core/Condition, Core/Condition/*: core/condition.go, condition_state.go, condition_time.go,
--     condition_date.go, and the condition of core/sun.go
--   Core/Scheduler, Core/Scheduler/*: core/scheduler.go (add, requeue, runDue, refresh, nextFireAt)
--   Core/Trigger: core/trigger.go, core/trigger_event.go, the trigger of core/sun.go
--   Core/Automation, Core/Automation/*: core/automation.go (the builder's stages, Build, fire)
--   Core/Registry, Core/Registry/*: core/automation_registry.go (subscribeAutomation, dispatchEvent)
--   Core/Registration, Core/Registration/*: the same file's RegisterAutomations and scheduleAutomation
--   Core/Lifecycle, Core/Lifecycle/*: core/app.go (what the application does with events, Start, Close)
--   Connect/Backoff: internal/connect/backoff.go
--   Connect/Message, Connect/Options: internal/connect/message.go, and Options of client.go
--   Connect/Client, Connect/Client/*: internal/connect/client.go and send.go (each critical section is a
--     step, and the steps of all goroutines interleave in any order)
--   Connect/Reconnect, Connect/Reconnect/*: the same file's authenticate, connectOnce, reconnect and run
--   Generate, Generate/*: cmd/generate/main.go (the names, and the loop of render)
--   Json: the values of a map[string]any
--   Types: types/request.go
--   Services, Services/*: services/ (a module for each service, its methods by their names)
--   TestServer, TestServer/*: hatest/server.go
--   Prelude, Prelude/*: lists, maps and tests that the rest shares
--
-- Representation. Instants are nanoseconds from Go's zero time, which is 0; durations are int64 bit
-- patterns. A Go map is an association list with one entry for each key. A startup trigger is a pointer
-- that automations may share: it is known by its address, and the app keeps those that have fired.
-- Errors keep their cause and lose their text; logging is left out.
--
-- Parameters. JSON decoding, the replies of the REST client, the calendar, cron schedules, RFC 3339
-- parsing and the priority queue of Workiva/go-datastructures are not in the repository; what is
-- relied on of them is stated as hypotheses or as laws of a record.
--
-- Bounds and fuel. The loop of runDue runs on fuel; CatchUp shows how much is enough. Generations of
-- pending runs are uint64, so their theorems speak of fewer than 2^64 actions. Of the client, no step
-- takes an id that an int64 cannot hold, or a generation that a uint64 cannot. The interval trigger is
-- right while its epoch is within the longest Go duration, some 292 years. What the code computes in
-- float64, the delays before an attempt to reconnect, is exact up to 2^53, to which their theorems keep;
-- so are the ids that the test server reads from JSON, whose numbers are all float64s.
--
-- Not modelled: of the connection, the websocket, the keepalive and Close (internal/connect); the checks
-- of NewApp and the loops that Start runs (core/app.go); the sorting and the template of the generator
-- (cmd/generate); the HTTP client (internal/http.go); the HTTP server of hatest; the run loop of the
-- scheduler with its timers and channels.
pub mod Prelude
pub mod Scheduling
pub mod Connect
pub mod Core
pub mod Generate
pub mod Json
pub mod Services
pub mod TestServer
pub mod Types
