-- ===== src/Lib.antt =====
-- Verification library of thinroute, a gateway that routes requests for language models to
-- providers.
--
-- A request names a model. Its name is parsed into a selector (core), a virtual model is replaced by
-- one of its targets (virtualmodels), the router checks the cooldowns and calls the provider
-- (providers/router), whose client sends the HTTP request, with retries, under a circuit breaker
-- (llmclient). An error of the provider is classified (core/errors) and may start a sweep of
-- failover targets (gateway), and each call of a provider is recorded for the audit log. A stream
-- is converted through a byte buffer, and its events are observed on the way (streaming). Responses
-- and conversations are kept in bounded memory stores (responsestore, conversationstore).
--
-- Files and the code they model, by paths from the repository's root:
--   Prelude, Clock, Text, Map: the language and its library: native numbers, lists, time.Time and
--     time.Duration, strings (as code points), maps with string keys (as association lists).
--   Errors: internal/core/errors.go. A Go error is the chain of errors that Unwrap walks.
--   Selector: internal/core/model_selector.go, and internal/core/requested_model_selector.go.
--   UserPath: NormalizeUserPath and UserPathAncestors of internal/core/user_path.go.
--   Breaker: internal/llmclient/circuit_breaker.go. A method under the mutex is one step.
--   Client: internal/llmclient/client.go: the bookkeeping of a request (Client), one HTTP request
--     (Client.Request), the three entry points with their retry loops (Client.Calls). Client.Slot
--     has the steps of concurrent traffic of one client: requests that begin and end in any order,
--     each of them a probe or not, as the breaker has said at its beginning.
--   Cooldown: internal/providers/cooldown.go. Router: routeResolvedModelCall of
--     internal/providers/router.go, which uses it.
--   Attempts: internal/gateway/attempts.go. Failover: internal/gateway/failover.go, and
--     ResolvedProviderName of internal/gateway/request_model_resolution.go.
--   Balancer: the pools and the weighted rotation of internal/virtualmodels/balancer.go, and its
--     cheapestTarget; leastused.go, weighted.go, random.go and healthaware.go beside it.
--   ModelSelectors: internal/modelselectors/selectors.go.
--   VirtualModels: the rest of internal/virtualmodels: types.go and its strategies (VirtualModels),
--     the paths of users in validation.go and authorize.go (VirtualModels.Paths), the normalization
--     of rows in validation.go (VirtualModels.Redirect), snapshot.go (VirtualModels.Snapshot),
--     balancedResolution of balancer.go (VirtualModels.Balanced), resolve.go (VirtualModels.Resolve),
--     authorize.go (VirtualModels.Access), and the refresh, Upsert, Rename and Delete of service.go,
--     with their checks and rollbacks (VirtualModels.Service).
--   EventStream: internal/streaming/observed_sse_stream.go: the search for the boundaries of events
--     (EventStream) and the processing of chunks (EventStream.Chunks).
--   StreamBuffer: internal/streaming/stream_buffer.go.
--   Retention: the bookkeeping that internal/responsestore/store_memory.go and
--     internal/conversationstore/store_memory.go share line for line (they differ in the type of
--     the stored value); ResponseStore and ConversationStore: the operations of the two stores.
-- Each component's children hold its proofs, and its child Tests holds runs and instances.
--
-- A method that changes its receiver is a function to the new state, a call of time.Now is an
-- argument, a call of a hook is an entry of a list of events, and errors are values. Numbers are
-- unbounded where the source counts entries, failures or bytes in memory; the counter of the
-- rotation wraps as a uint64. The retry loops recur on the number of attempts left, which starts at
-- the number that the client allows, and the other loops recur on the list that the source ranges
-- over, but for three that run on fuel: the loop over the ancestors of a path, on one more than the
-- length of the path, of which every turn takes a character at least or leaves /; the binary search,
-- on the number of the strings, of which every turn leaves out one at least; and the loop over a
-- chunk of a stream, on one more than its bytes, of which every turn takes one at least. Each of them
-- answers none where its fuel is spent. Maps are ranged over in the order of their entries where the
-- source leaves the order open.
--
-- Parameters stand for what is not in the repository's own code or not in these components: the
-- transport, the JSON libraries, float64, random numbers, the formatted texts of refusals, what a
-- provider answers, and the catalog of models.
-- Not modelled: runs of requests that overlap on the cooldown tracker (Router.route_during takes what
-- other requests do to it during a call as an argument, and the sequences of requests are of ones
-- that follow one another), a Get of a memory store whose cloning overlaps with a change of
-- the same entry, the length of the backoff between attempts (floats with a random jitter), logging,
-- HTTP headers of responses, the decoding of events and their observers, the SQL stores, the
-- views of the service of virtual models, the translation between the APIs of the providers, and
-- the server that ties the components together.
pub mod Prelude
pub mod Clock
pub mod Text
pub mod Errors
pub mod Map
pub mod Retention
pub mod Cooldown
pub mod ResponseStore
pub mod ConversationStore
pub mod Breaker
pub mod Client
pub mod Selector
pub mod Balancer
pub mod StreamBuffer
pub mod Attempts
pub mod Failover
pub mod Router
pub mod UserPath
pub mod ModelSelectors
pub mod VirtualModels
pub mod EventStream
