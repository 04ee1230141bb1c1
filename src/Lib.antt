-- ===== src/Lib.antt =====
-- MazeRegistryUI, a web interface for OCI container registries.
--
-- The program is a server (internal/server) over clients for the Distribution API
-- (internal/registry), one for each registry of the configuration (internal/config). A page of
-- the server asks a client for catalogs, tags, manifests and blobs. The client validates names,
-- keeps the answers in a bounded cache, negotiates bearer tokens, and decodes documents; the
-- server keeps the list of the repositories of each registry, which it filters and pages.
--
-- Which module models what, with the functions of the source under their own names in lower
-- case:
--   Prelude            numbers, lists, orders, insertion sort, association lists for Go maps,
--                      bytes for Go strings and the functions of Go's strings package,
--                      regular expressions for Go's regexp package
--   Registry/Cache     internal/registry/cache.go, ttlCache: newTTLCache, get, set, evictLocked
--                      (drop_expired, refs, by_use, target, trim), InvalidateRepo, Purge, len
--   Registry/Tags      internal/registry/client.go: sortTags, naturalCompare
--   Registry/Manifest  internal/registry/manifest.go: parseManifest, normaliseMediaType,
--                      cleanCommand, applyHistoryToLayers
--   Registry/Challenges  internal/registry/auth.go: parseChallenges, bearerChallenge
--   Registry/Auth      internal/registry/auth.go: tokenCache, challengeCache, the lifetime of
--                      requestToken; internal/registry/client.go: do, send
--   Registry/TokenService  internal/registry/auth.go: requestToken, applyStaticAuth,
--                      authScopeKey; internal/registry/client.go: the request that send makes,
--                      stripAuthOnHostChange
--   Registry/Options   internal/registry/client.go: New, normaliseBaseURL
--   Registry/Names     internal/registry/client.go: validateRepository, validateDigest,
--                      validateReference, isDigest, with their regular expressions
--   Registry/Paging    internal/registry/client.go: clampPageSize, nextCursor, splitLinkHeader,
--                      parseLink, hasRel
--   Registry/Client    internal/registry/client.go: checkResponse, readLimited; in Pages Ping,
--                      Catalog and Tags; in Content fetchManifest, fetchBlob, Blob and
--                      DeleteManifest; in Resolve buildImage, fillManifest, fillIndex, Image and
--                      TagSummary
--   Registry/Images    internal/registry/types.go: Image, Platform.String;
--                      internal/registry/client.go: distinctSize, dedupePlatforms;
--                      internal/registry/manifest.go: parseImageConfig, flexTime
--   Server/Catalog     internal/server/catalog.go: walkCatalog, List, Invalidate, filterRepos;
--                      internal/server/handlers.go: the paging of buildCatalog
--   Config             internal/config/config.go: applyDefaults, resolveSecrets, Validate, Registry,
--                      Default; in Expand Load, Parse, expandNode, expandString, dedupe
--   Server/Links       internal/server/handlers.go: safeReturn, splitRepo, pullCommand, splitEnv
--   Server/Compress    internal/server/compress.go: gzipResponseWriter
--   Server/Limiter     internal/server/server.go: acquire, and its use by handleRepoCount and
--                      handleTagRow of internal/server/handlers.go
--   Server/Startup     internal/server/server.go: the loop of New over the registries, assetToken
--   Server/Views       internal/server/handlers.go: buildImagePage, layerViews, layerCSS,
--                      representativeChild, sortedKV
--   Server/Pages       internal/server/handlers.go: fillTagRows, the rows of buildCatalog, intParam,
--                      the registry picker of layout
--   Server/Visits      internal/server/handlers.go: handleCatalog, handleCatalogRows,
--                      handleRepoCount, handleRepository, handleTagRows, handleTagRow,
--                      handleImage, and all requests for a registry as steps of the server
--   Server/Handlers    internal/server/handlers.go: lookup, handleDelete, handleRegistryHealth,
--                      handleTheme, theme, friendlyError; internal/server/middleware.go:
--                      sameOriginPost; internal/server/server.go: healthCache
--   Server/Display     internal/server/humanize.go: shortDigest, humanTime, fullTime;
--                      internal/server/middleware.go: contentSecurityPolicy, securityHeaders
--   Tests              concrete runs, and the theorems at concrete inputs
--
-- How the code is read. A method that changes its receiver takes the state and returns the new
-- state with the result; its mutex makes it one step. A reading of the clock is an argument;
-- times are nanoseconds from an epoch before all of them, durations are signed nanoseconds. The
-- tick of ttlCache is a word of 64 bits, and so is the lifetime arithmetic of requestToken;
-- other counters and lengths stay far below the range of int and are unbounded here. A map is an
-- association list, and the order of its entries is that in which a range happens to visit them.
-- Strings are lists of bytes; case folding and white space are those of ASCII. The sorts of Go's
-- library are an insertion sort, where the order is total on what is sorted.
--
-- Code outside the repository is a parameter. The parameter decode of parse_manifest stands for
-- encoding/json. The argument fetch of walk_catalog gives the client's answer to its k-th call,
-- and the argument walk of list_repos the outcome of the k-th walk. A World gives the outcomes
-- of the HTTP requests, the runs of requestToken and the readings of the clock; parse_url stands
-- for url.Parse, and env for os.LookupEnv. A Setup gives the methods of the client their options,
-- the function do on a state of its own, and the packages that they call; a method is a state
-- transition that ends with a value or an error. In Registry/TokenService the argument perform
-- answers a request and TokenUrls stands for net/url, as BaseUrls does in Registry/Options; a
-- Yaml gives what yaml.v3 makes of a file; Floats gives the operations on floating-point numbers
-- by which layerViews compares and prints shares. A Site gathers what the handlers of pages take
-- from outside; the patience of a request for the catalog is the number of calls that the client
-- makes before the context of the request ends, after which a walk fails. Of the response
-- writer of net/http, below that of Server/Compress, the model has that its first header goes out
-- and later ones are ignored, and that a flush before any header sends one of status 200. The
-- children of an index are fetched one after another, where the source runs up to six at a time.
-- The texts of errors are not modelled.
--
-- Loops are structural, but for the scanner of parseChallenges, with as much fuel as the header
-- has bytes and one more, the loop of naturalCompare, with as much as its first string has
-- bytes, and the loop of walkCatalog, whose fuel is an argument since no amount is enough for
-- every registry.
--
-- The requests that go through the limiter run side by side: their phases change by a step relation
-- on the list of the requests and the channels, and a run is any sequence of steps.
--
-- Not modelled: the setup of HTTP clients and servers, routing, logging, templates and assets, the
-- execution of templates, breadcrumbs, the rounding of floating-point sizes, and the
-- concurrency of the fetches of an index.
pub mod Prelude
pub mod Registry
pub mod Server
pub mod Config
mod Tests
