-- ===== src/Lib.antt =====
-- Easy Docker Proxy, a reverse proxy in front of Docker registries,
-- written in Go under internal/ and cmd/.
--
-- A request reaches the data plane, is checked against the access rules of its address (Acl) and
-- the rate limit (RateLimit), is routed to an upstream registry by its path prefix, its host or the
-- default (Proxy), and leaves a pull event in a bounded queue (Record), from which it is written to
-- the database (Store). The configuration (Config) says which registries, rules and limits there are.
-- A second server (Admin) is the console for accounts, configuration and statistics.
--
-- Config: internal/config/config.go, the structs; Config/Load has `ExpandEnv`, `Normalize` and `Load`,
--   Config/Validate what `Validate` accepts, Config/Realm `CheckTokenRealm`. `url.Parse`, the YAML
--   library, the file and the environment are parameters.
-- RateLimit: internal/ratelimit/ratelimit.go. A `Limiter` is a record, each operation a function on
--   it; the readings of the clock are arguments.
-- Record: internal/record/event.go and queue.go. Emitters, the worker and `Close` interleave as
--   steps of one state; the answers of the sink are part of the schedule.
-- Net: the Go library's net package as far as the program uses it. Addresses and networks, and the
--   parsers of both.
-- Acl: internal/acl/acl.go, `Build` and `Allows`.
-- Proxy: internal/proxy/proxy.go. Proxy/Path reads request paths (the four regular expressions,
--   `classifyPath`, `stripRepoPathPrefix`), Proxy/Request holds the parts of a request, Proxy/Routes
--   has `buildRoutes` and `resolveRoute`, Proxy/ClientIp the address that `ClientIP` settles on,
--   Proxy/PullAuth has `checkPullAuth`, Proxy/Headers the fields that are sent on, Proxy/Exchange
--   `proxyRequest` with the upstream as an argument, Proxy/Redirects which redirects of an upstream
--   are followed, Proxy/Clients the cache of HTTP clients under interleaved requests and reloads, and
--   Proxy/Serve puts all of these together with
--   Acl, RateLimit, Store/PullUsers, Upstream and Metrics into `ServeHTTP`, `New` and `Reload`.
-- Metrics: internal/metrics/metrics.go, the counters.
-- Store: internal/store/pull_users.go (Store/PullUsers, the accounts of `docker login` with their
--   cache) and users.go (Store/Users, the accounts of the web console with their sessions). Tables
--   are lists of rows, each statement may fail, calls follow one another. bcrypt and SHA-256 are
--   parameters.
--   Store/Stats is store.go with the recorded events, their daily sums and retention, and stats.go:
--   the chart (Store/Stats/Series) and the overview, the rankings and the recent events
--   (Store/Stats/Queries). Store/Images is images.go. Store/Sql has what their queries share: order,
--   groups and limits. Rates are fractions. Store/Open is `Open`, with the driver as a parameter.
-- Upstream: internal/auth/upstream/token.go, `ParseBearerChallenge` (Upstream/Challenge), the token
--   cache (Upstream/Tokens; whether the realm is allowed and what it replies are arguments of
--   `get_token`), and `GetToken` with the requests that it makes (Upstream/Fetch; the servers are a
--   parameter).
-- Api: internal/statsapi/api.go, the handlers of the console's accounts, sessions and pull users (Api,
--   Api/Users, Api/PullUsers) on top of Store and RateLimit, and those of the statistics
--   (Api/Statistics) on top of Store/Stats and Store/Images.
-- Admin: internal/admin/admin.go, the server of the console: its mux, who is let in, the
--   configuration and reload routes; it calls Api, and shows `MaskedCopy` of Config/Copy.
-- Web: internal/web/web.go, the pages of the console; the embedded files are a parameter.
-- Start: cmd/proxy/main.go, the accounts made at the start and the loop over the signals, on top of
--   Config/Load, Store and Proxy/Serve.
-- Http: what these use of net/http, strconv and strings.
-- Base: strings as lists of bytes, maps as functions, integers and lists over the native numbers.
--
-- Bounds. Floating point amounts are whole multiples of a small unit (RateLimit says which). Sums
-- and counts do not wrap, but for those of Metrics, which wrap at 2^64. Loops run over lists; the
-- exchange sort runs on the length of its list. The redirects of a token realm are followed with
-- any fuel from 3 on, since `CheckRedirect` stops them by then. The worker of the queue needs at most
-- one receive and `max_attempts` writes for each event.
--
-- In Proxy/Exchange one call of the HTTP client is one exchange: the redirects that the client follows
-- by itself inside of the call are not among the requests `sent`; which of them are followed is in
-- Proxy/Redirects.
--
-- Not modelled: the transport of the HTTP clients, the statements that create the tables, the text of
-- the metrics page, the flags and the http.Server settings of the start, logging.
pub mod Acl
pub mod Admin
pub mod Api
pub mod Base
pub mod Config
pub mod Http
pub mod Metrics
pub mod Net
pub mod Proxy
pub mod RateLimit
pub mod Record
pub mod Start
pub mod Store
pub mod Upstream
pub mod Web
