-- ===== src/Lib.antt =====
-- mcp-plugin: a bridge between an OpenTalon host and MCP servers. The host configures it with a list
-- of servers; it connects to each, lists its tools, and announces them as actions
-- "<server>__<tool>". When the host executes an action, the bridge converts the flat string arguments
-- by the tool's schema and calls the tool on its server.
--
-- The parts, and the files that model them:
-- - Base: texts as lists of bytes, association lists for Go's maps, sorting, ParseInt; the small part of
--   Go's library that the code stands on. Json: a JSON text split one level deep, and the decoding of
--   struct fields from it.
-- - Config: config/config.go. Expand has `ServerConfig`, `envRe`, `expandEnv` and `expandHeaders`;
--   Parse has `Parse`, `Load` and `CacheDir`, which Agree compares.
-- - Mcp/Types: mcp/types.go. Property has `SchemaProp` with its JSON methods; Tools, Payloads and
--   Results have the other messages.
-- - Mcp/Headers: `headerTransport` of mcp/client.go.
-- - Mcp/Streamable: mcp/streamable.go, `roundTrip`, `notify` and `decodeSSEResponse` over HTTP.
-- - Mcp/Sse: mcp/sse.go. Frames reads the lines of a stream; Conn has the subscriptions, `dispatch`
--   and `handleEvent`; Post has `post`, `notify`, `connect` and `roundTrip` as its caller sees it;
--   Waiting lets the calls that wait, the read loop and the timers of one connection follow one
--   another in any order.
-- - Mcp/Client: mcp/client.go over the interface `Wire`, which is the `transport` of
--   mcp/transport.go with the opening of both kinds. Connect has the handshake, the retry and the
--   fallback; Calls has `ListTools`, `CallTool`, `IsAlive` and `Close`; Net has the two transports
--   as that interface, each from the making of its context.
-- - Plugin/Args: what `Execute` of plugin/handler.go does to the arguments: Coerce, ToolNames,
--   IncludeFields, Context.
-- - Plugin/Clients: the clients of mcp/client.go as the objects that the registry holds.
-- - Plugin/Registry: plugin/registry.go. Meta has the projections of a tool's annotations, `_meta` and
--   schema; Fetch has `fetchTools` and the cache; Build has `Build`; Live has `reconnect`, `Close` and
--   the rounds of the background loops; Backoff has their waits; Loops has `StartBackgroundRetry` and
--   the loops.
-- - Plugin/Handler: plugin/handler.go. Execute has `Execute`; Refresh has `Configure`, `Capabilities`
--   and `RefreshCapabilities`; Refresh/System lets the parts of these that hold the lock follow one
--   another in any order; Calls has whole calls, one after another.
-- - Main: main.go, from the environment to the end of the process.
-- - Tests: a small world and concrete runs.
--
-- The state of all that lies outside, such as servers, connections and files, is a type `W` that the
-- definitions take and return. The registry uses the client through the record `Upstream`, which
-- Plugin/Clients fills, and the client its transports through `Wire`, which Mcp/Client/Net fills. A
-- client or a transport is the number of its object, which no later object gets again. An error is its
-- message; of an error of the JSON decoder only the text that the code puts before it is kept. A
-- float64 is its bit pattern. Times are whole seconds. A slice out of range is a result of its own:
-- none, which `Execute` turns into `panic`.
--
-- Loops over lists are recursions on them. The two background loops wait for servers, so they run on
-- fuel, one unit a round; what makes the fuel enough is that each server comes up after some number of
-- waits. A wait is a parameter: it is over, with whatever other goroutines have done meanwhile, or the
-- context is done. The order in which Go ranges over a map is the order of the association list; what
-- depends on it is stated for every order where it is stated. Texts are taken byte by byte; lowering the
-- case and trimming of non-ASCII text are the parameter `Unicode`.
--
-- Not modelled: HTTP itself, of which an exchange, the lines of a stream and the outcome of a call's
-- `select` are parameters; a stream that stays open without an endpoint event, on which `connect`
-- waits for ever; the delay of `graceCloseRegistry`; panics that
-- end the process; logging. JSON scanning, ParseFloat, quoting, net/url, and the host's library are
-- parameters, since their code is not in the repository.
pub mod Base
pub mod Json
pub mod Config
pub mod Mcp
pub mod Plugin
pub mod Main
pub mod Tests
