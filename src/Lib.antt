-- ===== src/Lib.antt =====
-- ZentProxy is a reverse proxy with a control plane: an API keeps proxy hosts and their relatives in a
-- SQLite store, a manager renders the store into a configuration of OpenResty (nginx), tests it and
-- activates it, and other parts feed it: certificates, lists of trusted proxies, the ZentLoop
-- bridge, analytics. This library models the core: what a host may be, how the stored hosts become a
-- configuration, how the proxy starts when a backend does not resolve, and how the API changes
-- hosts and undoes a change that cannot be activated.
--
-- Parts and files
--   Base               lists over the native numbers, texts as lists of bytes, Go's int
--   Strings, Regex     what the program uses of Go's strings, strconv and regexp, on bytes: a letter
--                      is folded, and a blank trimmed, only where it is ASCII
--   Net                what it uses of net and net/netip, as an interface; Net/Ipv4 fills it
--   Model              internal/model/model.go: the shared records
--   Proxy              internal/proxy/manager.go
--     Names            validForwardHost, normalizeForwardHost, normalizeServerName, validServerName
--     Hosts            normalizeHostInput, ValidateHost, NormalizeAndValidate, CheckDomainConflicts
--     Capacity         computeRuntimeCapacity
--     Upstreams        upstreamPoolIdentity, upstreamName, collectProxyUpstreams
--     Rules            zentLoopRulesForHost
--     Roots            registrableDomain, zentLoopRootDomains
--     Resolve          nginxResolverAddresses, hostsFileAddress, systemPinnedUpstreamAddress
--     Startup          ApplyStartup, isolateHostsReferencingUpstream, unresolvedUpstreamFromError
--     Render           renderHost, renderLocation, renderRedirectHost, renderDeadHost, renderStreams,
--                      renderProxyUpstreams, and the access list of a host
--   Store/Rows         internal/db/store.go: statements on one table by id
--   Store/Providers    the rows of trusted proxy providers, the references to them, and GetProvider,
--                      ListProviders and UpdateProviderResult
--   Providers          internal/providers/manager.go: uniqueSorted, sameStrings, fetchCIDRs, Refresh and
--                      RefreshAll; Sets, Clean, Kept, Synced and Refused have the proofs
--   Analytics          internal/analytics/tailer.go: Lines has parseLogLine, Tailer the loop of run with
--                      InsertRawRequestsWithOffset, and the events around it, that OpenResty writes
--                      and opens its log again among them; Reading, Settled and Exact have the proofs
--   Auth               internal/auth/auth.go: HashPassword, VerifyPassword, pbkdf2SHA256
--   Config             internal/config/config.go: Load and the readers of variables
--   ZentLoop           internal/zentloop/handler.go and internal/zentloop/monitor.go
--   Api/State          the state of the handlers, with internal/db/store.go: CreateHost, GetHost,
--                      UpdateHost, DeleteHost, AddAudit
--   Api/Hosts          internal/api/server.go: hostsCreate, hostUpdate, hostDelete; Sound, Invariant,
--                      Rollback and Effects have the proofs
--   Api/Auth           authenticate, require, requireSession, with ValidateSession, ValidateAPIKey and
--                      RevokeAPIKey of the store
--   Api/Providers      providersList, providerCreate, providerUpdate, providerDelete, providerRefresh,
--                      normalizeProviderInput, with CreateProvider, UpdateProvider and DeleteProvider;
--                      Normal, Sound and Run have the proofs
--   Api/Update         internal/api/update.go; Versions and Honest have the proofs
--   Api/Items          the handlers of streams, redirect hosts and 404 hosts, which one model serves, with
--                      their rows; Streams, Redirects and DeadHosts say in what they differ, Rollback
--                      and Undone have the proofs
--   Api/ZentLoop       zentLoopSet, with GetZentLoop and SetZentLoop; Valid and Run have the proofs
--   Tests              runs of the definitions, and instances of the theorems
--
-- State and steps. A handler is a function from a request and a state to a state and a reply. The
-- state holds the rows, the next id, the hosts of the configuration on disk, the number of
-- activations and the audit log. A request says which calls of the store fail; the n-th activation
-- refuses the configuration, activates it, or leaves it on disk without running it, as a parameter
-- says. The undoing of a failed change is part of the handler, with its own failures.
--
-- Parameters. The parsers of addresses (Net), providers, access lists and the check of a certificate
-- (Env), the activation, the lookup of a name, net.SplitHostPort and the contents of files are
-- arguments of the definitions that use them. The laws of Net are that the canonical form of an
-- address is parsed to itself and that addresses are written in digits, dots and colons.
--
-- Fuel. The loop of the start runs on fuel, one more than there are hosts; each round that goes on
-- isolates a host, so this is enough. The repetitions of a pattern run on the length of the text.
--
-- Order. Maps of Go whose order does not matter are lists without duplicates; where the code sorts
-- them, so does the model.
--
-- Not modelled: the files and processes of the activation, the enclosing text of render, SQL and
-- JSON, login, the handlers of access lists, API keys and preferences, certificates, the statistics,
-- migration, and the web interface.
pub mod Base
pub mod Strings
pub mod Regex
pub mod Net
pub mod Model
pub mod Proxy
pub mod Store
pub mod Providers
pub mod Analytics
pub mod Auth
pub mod Config
pub mod ZentLoop
pub mod Api
pub mod Tests
