-- ===== src/Lib.antt =====
-- Spatial server: a verification library of the server for shared spaces.
--
-- The program runs as three services. Game servers (apps/game-server, internal/game) simulate zones:
-- who is where, what each entity sees, and ghosts of what lies beyond a border. The room service
-- (apps/room-service, internal/room) knows the servers and who owns a zone, hands zones over and
-- takes them from servers that died. The gateway (apps/gateway, internal/gateway) admits clients,
-- limits what they send and finds the server of their zone. They speak packets of pkg/protocol. A
-- validation package (internal/validation) breaks a running system on purpose and reports on it.
--
-- Which file models which part; an operation has the name of its function, in lower case with
-- underscores, and the children of a file hold what is proved of it:
--   Types              internal/types/types.go: identifiers, statuses, the table of transitions
--   Protocol           pkg/protocol/protocol.go: Encode, Decode
--   Game/Aoi           internal/game/aoi/aoi.go: the spatial grid
--   Game/Zone          internal/game/zone/zone.go: the life of a zone, adjacent zones
--   Game/State         internal/game/simulation.go, event.go, lifecycle.go, entity/entity.go: the
--                      state of a Game
--   Game/Zones         internal/game/simulation.go: AssignZone, ReleaseZone, RegisterPeerZone
--   Game/Entities      internal/game/simulation.go, boundary.go: addEntity, removeEntity,
--                      MigrateEntityIn
--   Game/Sessions      internal/game/lifecycle.go: MarkDisconnected to SweepDisconnected
--   Game/Ghosts        internal/game/simulation.go, boundary.go: detectZoneBoundaries, sweepGhosts,
--                      the ApplyEntity calls, ReconcileNeighborGhosts
--   Game/Events        internal/game/simulation.go, event.go: publish, dispatch, enqueueMove,
--                      updateVisibility
--   Game/Npc           internal/game/npc.go: moveAxis, PatrolBehavior
--   Game/Isolation     what the calls of the other parts of Game do to Spaces
--   Room/Node          internal/room/node.go, allocator.go: a server, the choice of one
--   Room/Registry      internal/room/registry.go: ServerRegistry, ResolveZone
--   Room/Ownership     internal/room/registry.go: ZoneOwnership
--   Room/Fanout        internal/room/registry.go: WatcherFanout, over Base/Queue
--   Room/Migration     internal/room/migration.go: MigrationCoordinator
--   Room/Sweeper       internal/room/sweeper.go: Sweeper.sweep
--   Room/Runtimes      internal/room/api.go: MemoryRuntimeStore, SpatialServerAPI
--   Room/Database      internal/storage/room: ServerRepository, ZoneRepository
--   Room/Production    internal/room/sweeper_production.go: ProductionSweeper.sweep
--   Room/Service       apps/room-service/main.go: Register, Heartbeat, LookupZone
--   Gateway/Limits     internal/gateway/ratelimit.go: the token buckets
--   Gateway/Cache      internal/gateway/cache.go: RouterCache
--   Gateway/Pool       internal/session/session.go: Session, Pool
--   Gateway/Handler    internal/gateway/handler.go, relay.go: Handler, the limits of relayWS
--   Gateway/Store      internal/gateway/store.go, token.go: RedisSessionStore
--   Relay/Clients      apps/game-server/main.go: boundedSendQueue, clientRegistry
--   Validation/Scenario, Validation/Report, Validation/Runner, Validation/Run, Validation/Recovery
--                      internal/validation: scenario.go, report.go, runner.go, recovery/waiter.go
--   Base               tests, lists, maps, integers, text and bounded queues, which all share
-- The modules called Tests run the definitions and apply theorems on concrete values.
--
-- How the model is built. Each operation is a function on the state, which returns the new state and
-- what the call returns; an error is one of the sentinel errors, without its text. A map is an
-- association list that a write keeps free of second entries for a key; a loop over a map is a loop
-- over that list, in its order. What is shared between several maps of a Game, its entities and
-- grids, lives in stores behind references; what one map alone points to is a value. A modelled call
-- is one step: almost all run under one lock, so concurrent calls are a sequence of calls. The
-- exceptions are the Get of the gateway's cache, the push of a send queue and the limits by address,
-- which are modelled as when nothing comes between their parts. A reading of a clock is an argument.
--
-- The handler of the gateway is modelled among its requests, of which each is two steps; a run of a
-- scenario takes what the scenario's own functions do, panics included, as values, and follows the
-- deferred calls in their order. The database is a pair of tables with a script of the calls that
-- fail; a call that fails changes nothing, and the rows of a query come in the order of the table.
--
-- Numbers. Coordinates, radii and sizes are integers of one unit where the source has float64, so the
-- arithmetic of the grid is exact; a cell is the coordinate divided by the size of a cell, rounded
-- down. Times and durations are natural numbers of nanoseconds, and a duration does not go below 0.
-- The ids and sequence numbers of packets keep their 16 and 32 bits, and the bounds of AdjacentZones
-- wrap as an int of 64 bits; other counts have no upper bound. The only
-- fuel is that of the digits of a number, of which a number has at most as many as its successor;
-- the polls of a waiter and the steps of a patrol are counted by what ends them in the source.
--
-- Not modelled: sine and cosine, random targets and lifecycles of autonomous entities; protobuf,
-- gob and JSON, whose results are taken as values; gzip, the querier of the neighbours, the check
-- of tokens and the client of Redis, which are parameters; the text of SQL, the errors of Redis, gRPC, HTTP and WebSocket
-- connections, tickers, metrics and logs; the services' main functions; the processes, injectors,
-- observers and validators of the validation package; and the leadership gate and the tick of a Game
-- with its queue of commands, which keep state of their own.
pub mod Base
pub mod Types
pub mod Protocol
pub mod Game
pub mod Room
pub mod Gateway
pub mod Relay
pub mod Validation
