-- ===== src/Lib.antt =====
-- tileserver-go, a server of map tiles from MBTiles archives: a model of its core and what it does.
--
-- A configuration is normalised and validated; the server opens the archives that it names or that lie
-- in the data directory. A request passes the middlewares, is read as a tile, a grid, a document or a
-- WMTS request, and is answered from the response cache, or by one goroutine that the flight group lets
-- load the tile from the archive.
--
-- Base: lists, byte strings, signed integers, dictionaries, numbers, Results (a value or an error, and
--   what follows from the parts of a chain of calls), and Linked, container/list as a list of elements
--   with handles, with what keeps a map of handles and a list in step.
-- Cache (internal/cache/cache.go): Key has Key, Value, NewTileKey, NewGridKey and hashKey; Shard has
--   one shard and the parts of get and Add that work on it; Sharded has Cache with New, Get, Peek, Add
--   and Stats. A shard's mutex makes each operation one step on the state.
-- Flight (internal/flight/flight.go): Group.DoContext as a relation Step between states of the map,
--   the heap of calls and the goroutines; a step is the code between two points that others can see.
-- Config (internal/config/config.go): the lists of texts, base paths, ids and allowed hosts; Settings
--   has Config and Default, Validation has Normalize and Validate, which return the configuration that
--   the code leaves in place.
-- Command (cmd/tileserver/main.go): run up to server.New with parseFlags and splitList, and Load of
--   internal/config/config.go.
-- Mbtiles (internal/mbtiles/store.go): Format, Json, Layers and Metadata have loadMetadata and its
--   parsers; Dsn has sqliteDSN and the page-cache budget; Open has Open and Close with the database and
--   statement handles as state; Rows has tmsRow and the range checks, Store has Tile and Grid over what
--   the SQL statements answer. Metadata of the code is Metadata of Store, which the tile handlers read,
--   and Loaded of Metadata, which the documents read.
-- Server (internal/server): Encoding has the Accept-Encoding negotiation, Tiles the helpers and
--   loaders, Cached cachedResponse, TileRequests serveTile and serveGrid (all tiles.go); Metrics
--   metrics.go; MetadataCache metadata_cache.go; Policy policy.go; Middleware the decisions of
--   middleware.go and Chain the middlewares around the mux in the order of Server.Handler; Sources
--   discoverSources, New and Close of server.go; Wmts wmts.go; Documents documents.go, with the
--   capabilities of wmts.go. Handlers take the state and return it with the response.
-- Tests: each result at a concrete input, and runs of the definitions.
--
-- Fuel: the eviction loop of Add runs on the length of the list, and each round drops an element; the
-- loop over the parameters of an encoding runs on the length of their text, and each round takes a
-- parameter off. Printing hexadecimal digits uses 16 or 17 rounds, decimal digits 19, enough for 64
-- bits.
-- Bounds: the fields of keys, the shard hash, the counters and the sizes in the DSN wrap at their
-- width. Sizes of entries and the sums of them are below 2 ^ 63 in any memory, so the model does not
-- wrap them; nor does it wrap the count of bytes of a response. Letter case and white space of texts
-- are those of ASCII. The zoom levels of the capabilities count from a level that is not negative.
-- The calls of other goroutines between two steps of cachedResponse are the caches that its argument
-- Turn names, and so is what the flight group answers to a goroutine that waits.
--
-- Parameters: what the database answers, packages flag and os, compress/gzip, hash/crc32, encoding/json,
-- encoding/xml, net/url, path/filepath, float64 and package math, net.SplitHostPort, the capacity of
-- slices, and the order in which a range meets the keys of a map.
-- Not modelled: the routes of the mux, listening and shutdown in main.go; the texts of the metrics,
-- the health and the status pages; the access log; the example server and the release smoke test.
-- These write fixed or momentary values, or wait for sockets and signals.
pub mod Base
pub mod Cache
pub mod Flight
pub mod Mbtiles
pub mod Server
pub mod Config
pub mod Command
mod Tests
