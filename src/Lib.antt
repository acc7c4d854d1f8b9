-- ===== src/Lib.antt =====
-- A model of the core of LocalLife-Go, the Go server of a local-life service: shops, vouchers,
-- flash sales ("seckill"), orders, blogs, likes, follows, feeds, logins, uploads and nearby shops.
--
-- The program is a modular monolith. A handler (internal/handler) parses a request, a service
-- (internal/service) decides, a repository (internal/repository) sends statements to MySQL, and a
-- cache (internal/cache) sends commands and Lua scripts to Redis. A voucher's flash sale is sold in
-- one of two ways. Synchronously, Order.Place takes a unit and inserts the order in one
-- transaction. For an activity that AsyncOrder.Enable has staged and activated, AsyncOrder.Accept
-- reserves a unit by a Lua script that also leaves an event in a stream; a worker reads the events,
-- AsyncOrder.Process applies each to MySQL, compensates Redis for one that failed, and acknowledges
-- it.
--
-- Which file models what:
--
-- Prelude and its children: lists, Boolean tests, texts as lists of bytes, int64 and uint64 in
--   decimal (strconv).
-- AppError: pkg/apperror/error.go.
-- Model: internal/model.
-- Effects: how a Go call that returns a value and an error and changes a store is read, and what
--   may become of a request to a server.
-- Database: the MySQL tables of vouchers and orders, and their statements.
-- Paging: the guard and the page of every list operation; the tests of page and size, the offset
--   (page - 1) * size and the limit size + 1 are those of the List methods of internal/service.
-- Order: internal/service/order.go (Place, Detail, List); Order/Repository:
--   internal/repository/order.go.
-- AsyncOrder: internal/service/async_order.go (Enable, Accept, Result, Process);
--   AsyncOrder/Repository: internal/repository/async_order.go (Activity, Stage, Activate, Result,
--   Apply, ActiveIDs); AsyncOrder/History: the tables under any sequence of these calls;
--   AsyncOrder/Retry: an event applied again after such a sequence; AsyncOrder/World: the service
--   over the tables and Redis together; AsyncOrder/Redelivery: a delivery that comes again;
--   AsyncOrder/Retained: one that failed, and the claims after it; AsyncOrder/Worker:
--   internal/service/seckill_worker.go (RunWorker).
-- Redis: hashes and streams.
-- Seckill: internal/cache/lua/seckill_reserve.lua; Seckill/Recovery: the scripts
--   seckill_prepare.lua, seckill_check.lua, seckill_receipt.lua and seckill_compensate.lua beside
--   it; Seckill/Tickets: the keys of an activity under any sequence of scripts; Seckill/Cache and
--   Seckill/Cache/Messages: internal/cache/seckill.go and seckill_consumer.go.
-- Shop: internal/service/shop.go, internal/service/shop_update.go and
--   internal/repository/shop.go; Shop/Refresh and Shop/Rebuild: internal/service/shop_refresh.go;
--   Shop/Store: internal/cache/shop.go.
-- Auth: internal/service/auth.go; Auth/Store: internal/cache/auth.go and its two scripts;
--   Auth/Accounts: internal/repository/user.go; Auth/World: the login over the table of users and
--   Redis together; Auth/Held and Auth/Sessions: its session and its code under the calls that come
--   after it.
-- Social/Blogs, Social/Likes, Social/Follows, Social/Visible: internal/service/blog.go and
--   follow.go, and internal/repository/blog.go, community.go and follow.go.
-- Feed: internal/service/feed.go; Feed/Store: internal/cache/feed.go and its two scripts;
--   Feed/Store/Snapshots: a snapshot while the feed goes on.
-- Community: Sign of internal/service/community.go and internal/cache/community.go;
--   Community/Profiles: its other queries, over internal/repository/community.go;
--   Community/Messages: the notification stream, with Community/Streams and Community/Reading on
--   reading it in parts.
-- Voucher: internal/service/voucher.go and internal/repository/voucher.go.
-- Geo: internal/service/geo.go, internal/repository/geo.go, internal/cache/geo.go and its script
--   geo_publish.lua.
-- Media: internal/service/media.go.
-- Config: internal/config/config.go (LoadFrom).
-- Handler: pkg/response/response.go, and what a request is; Handler/Requests: the numbers, the
--   page and the JSON that the handlers read; Handler/Middleware: internal/middleware;
--   Handler/Shops, Handler/Orders, Handler/People and Handler/Community: the handlers of
--   internal/handler, named as they are there with their type before; Handler/Routes: the routes of
--   their Register functions, each with its chain; Handler/Statuses: the status that belongs to
--   each route.
-- Examples: the theorems at concrete inputs. The Laws modules and their like hold the proofs.
--
-- How a call is read. A statement, a command or a script is run on the state by the server, and a
-- Reply that the environment chooses says whether it was run and answered, not run, or run with its
-- answer lost; so a theorem over all replies is one over all failures. A transaction whose COMMIT
-- is lost has committed. The row lock of an activity orders the transactions of that activity, so
-- that a history is a sequence of calls. A Lua script is atomic. Times are numbers: milliseconds
-- since 1970 for the tables, nanoseconds since the year 1 for the shop cache, where 0 is Go's zero
-- time. Columns that the schema keeps non-negative are natural numbers. The contexts of Go are
-- inputs: what ctx.Err() says where the code asks. Of GORM and Redis only the statements and
-- commands that the code sends are modelled, as their documentation describes them; hashes, base64,
-- JSON, trimming, UTF-8, the parsing of durations and of addresses, floats and their comparison,
-- the search of the index of places, and picture codecs are parameters; what the operating system
-- answers is an input. The numbers in the fields of the Redis hash are the decimal texts that the
-- scripts write, so that tonumber is read on digits only; a signed or fractional stock, which no
-- script writes, is refused.
--
-- Bounds and fuel. The loop that pushes a feed in batches of 500 runs on as many rounds as there
-- are recipients, which is proved enough. The loop over the bits of a month runs on as many rounds
-- as the field has bits, which is proved enough. The batches of a rebuilt index of places run on as
-- many rounds as there are shops, which is proved enough. The worker's loop ends only with its
-- context: its number of rounds is when the run is looked at, and every number is meant.
--
-- A handler is a computation of an answer or an error, since every error branch of internal/handler
-- ends in response.Fail; Hertz gives it the path parameter, the query as net/url parses it, headers
-- and the body, and rendering appends to the body of the response. A panic is an input: the context
-- at that point.
--
-- Not modelled: process lifecycle, connections and commands, which are I/O and glue, and the access
-- log.
pub mod Prelude
pub mod AppError
pub mod Model
pub mod Effects
pub mod Database
pub mod Paging
pub mod Order
pub mod AsyncOrder
pub mod Redis
pub mod Seckill
pub mod Shop
pub mod Auth
pub mod Social
pub mod Voucher
pub mod Feed
pub mod Community
pub mod Geo
pub mod Handler
pub mod Media
pub mod Config
pub mod Examples
