-- ===== src/Lib.antt =====
-- timelynotify-server, the push server for the TimelyNotify apps: a verification library for the logic
-- that it carries itself.
--
-- The program and this library
-- - A push arrives at an HTTP route. The device registry (database/) says which devices a key is
--   bound to, the push policy (internal/pushpolicy) what is kept and shown, and the
--   gotify-compatible service (internal/gotifycompat) stores the message and passes it to the live
--   subscribers. Clients read the history in pages and learn of removed messages from the deletion
--   log. The rate limiter (internal/ratelimit) and the list of exempt paths (internal/authfree)
--   guard the routes.
-- - Base: shared helpers. Numbers are native; Go maps are Base.Dict, an association list with at
--   most one entry for a key; a walked text is a list of code points (Base.Strings); strconv is
--   Base.Strconv.
-- - Gotify.Value, Gotify.Model: dynamic values, messages, deletion records (internal/gotifycompat/
--   model.go, deletions.go, extraIDOf of store.go). Gotify.Params: the checks of query parameters.
-- - Gotify.Memory: memoryStore of internal/gotifycompat/store.go. The state is the record
--   MemoryStore; add, upsert_by_extra_id, delete_scoped (Delete, DeleteByDevice) and
--   delete_by_extra_id are in Memory; expire_messages, cleanup_deletions and delete_all_by_device in
--   Memory.Sweeps; deletions_by_device in Memory.Log; the reads in Memory.Reads. A history of calls
--   is Memory.Run.
-- - Gotify.Token: token.go and the client token in Init of service.go. Gotify.Hub: hub.go.
--   Gotify.Service: PublishWithID of service.go, over memoryStore.
-- - Database: DeviceInfo of database/database.go; Database.Bbolt, MemBase and EnvBase are the
--   backends in bbolt.go, membase.go and envbase.go.
-- - RateLimit: internal/ratelimit/ratelimit.go. AuthFree: internal/authfree/authfree.go. PushPolicy:
--   internal/pushpolicy. Logging: internal/logging/sanitize.go.
-- - Gotify.Bolt: bboltStore of internal/gotifycompat/store.go. Its buckets are ordered tables
--   (Gotify.Bolt.Table), the codec of the rows is a parameter, the bytes of the keys are in
--   Gotify.Bolt.Keys, and a transaction returns none on an error. Gotify.Bolt.Reads, Log and Sweeps
--   have the reads, the deletion log and the bulk operations; Gotify.Bolt.Mirror relates the state
--   to that of memoryStore, call by call.
-- - Push: route_push.go. Push.Values coerces parameters, Push.Message makes the message of a request
--   (PushMessage of apns/apns.go), Push.Harmony the notification of pushToHarmony; Push.Deliver has
--   the delivery to one target and the fan-out, with the registry, the history and the push services
--   as the record Env, Push.Request has push and pushDelete, and Push.Parse the routes of V1 and V2
--   with the batch. Push.Apns: Push of apns/apns.go. A fan-out is the list of its deliveries in the
--   order in which they end.
-- - Register: doRegister of route_register.go, over any registry; a theorem joins it with
--   Database.Bbolt. Harmony: harmony/token.go and harmony/client.go, the click data in Harmony.Click
--   and the messages in Harmony.Send. Gotify.Publish: gotifyPriority of gotify_publish.go.
--   Gotify.Route: the message list of route_gotify.go.
--
-- How code becomes definitions
-- - A method that holds a mutex throughout is one function of the state. The time that it reads is
--   an argument. An error is none, and a failed bbolt transaction leaves the bucket as it was. The
--   panic of a page at the limit math.MaxInt is none as well.
-- - uint64 counters wrap at 2 ^ 64; theorems on ids and cursors ask that the counter has room left.
-- - Loops are structural recursion on the list that they walk. The one loop on fuel prints a decimal
--   number (Base.Strconv): its fuel of twenty rounds is one for each digit that a uint64 can have.
--   Where Go leaves the order of a walk over a map open, the model visits the entry that was written
--   last first.
-- - float64 values of the rate limiter are an interface with the laws that rounding keeps; a float64
--   extra is given by what the code reads of it. bbolt's check on sizes, the JSON codecs of a device
--   record, a message and a row of the log, and the case tables of the unicode package are
--   parameters. The codec of messages keeps what has a JSON field.
--
-- Not modelled
-- - migrateIndexes, the instance id and the token buckets of bboltStore, the other routes, the
--   clients of APNs and the HTTP calls of the Harmony client, MySQL, metrics and the program's
--   entry. They are input and output, calls of libraries, or larger parts that this library does not
--   cover.
pub mod Base
pub mod Database
pub mod RateLimit
pub mod AuthFree
pub mod Push
pub mod PushPolicy
pub mod Harmony
pub mod Logging
pub mod Register
pub mod Gotify
