-- ===== src/Lib.antt =====
-- A model of ddns-updater, the program that keeps DNS records at the current public IP addresses.
--
-- The program reads settings, asks public services for its own addresses (pkg/publicip, over HTTP or
-- over DNS), compares them with what the resolver or the history says of each record, and updates
-- the records that differ through their DNS providers (internal/update). Records live in an
-- in-memory database (internal/data), and every new address is appended to a JSON file
-- (internal/persistence/json), from which the history is read at the next start.
--
-- Files and code:
--   Times            time.Time and time.Duration as the program uses them: nanoseconds, with the
--                    saturating difference of Time.Sub
--   Netip            net/netip: addresses, prefixes; Netip/Parse is ParseAddr, Netip/Print is String
--   IpVersion        pkg/publicip/ipversion/ipversion.go
--   Domain           internal/provider/utils/domain.go (CheckDomain, BuildDomainName)
--   Ipextract        pkg/ipextract/ipextract.go (IPv4, IPv6, extract)
--   Models           internal/models/history.go, internal/records/records.go,
--                    internal/constants/status.go, and the data of internal/provider/provider.go
--   Suffix           internal/update/ipv6.go (ipv6WithSuffix), internal/params/retro.go
--   Params           internal/params/json.go (makeSettingsFromObject, extractFromDomainField)
--   Health           internal/health/check.go (isHealthy)
--   Persistence      internal/persistence/json (NewDatabase, checkData, StoreNewIP, GetEvents, write)
--   Data             internal/data (Select, SelectAll, Update, ReplaceProviders)
--   Publicip/Cycle   pkg/publicip/subfetcher.go
--   Publicip/Http    pkg/publicip/http/fetch.go and ip.go (fetch, the ring of urls, its bans)
--   Publicip/Dns     pkg/publicip/dns/fetch.go and ip.go
--   Update/World     the collaborators of internal/update/interfaces.go and the state they change
--   Update/Updater   internal/update/update.go (Updater.Update)
--   Update/Getip     internal/update/getip.go, and getNewIPs of internal/update/service.go
--   Update/Lookup    lookupIPsResilient of internal/update/service.go
--   Update/Decide    shouldUpdateRecord, doIPVersion and their helpers, same file
--   Update/Service   updateNecessary, the initial statuses and the loop run, same file
--   Server           the admin sessions of internal/server/handler.go, api.go and update.go
--   Server/Settings  internal/server/settings.go (save, delete, toggle) and validateAndApplyConfig of
--                    internal/server/configui.go
--   Provider         internal/provider/provider.go (the interface Provider), utils/body.go,
--                    utils/provider.go, headers/headers.go, errors and constants: requests, replies,
--                    errors, and what the clients share: Provider/Http has the exchange and
--                    Provider/Raw the raw settings; Provider/Etld is the rewriting of a domain
--                    in the constructors of duckdns and goip
--   Providers/X      internal/provider/providers/x/provider.go, for the clients that make one request
--                    (allinkl, changeip, dd24, ddnss, desec, dnsomatic, domeneshop, duckdns, dyn, dynu,
--                    dynv6, easydns, freedns, gandi, godaddy, goip, he, infomaniak, inwx, ipv64, loopia,
--                    myaddr, njalla, noip, nowdns, opendns, selfhostde, spdyn, strato, variomedia,
--                    zoneedit), for custom, whose Update changes the client, and for digitalocean
--                    and cloudflare, which look a record up and then write it. In each, `new` and
--                    `build` are New, `provider` is the methods from String to HTML, and `request`,
--                    `classify` (or `answer`) and `update` are Update, with the helpers that stand
--                    before them; the functions of a client that makes several requests have the
--                    names of the code (get_record_id is getRecordID)
--   Providers/Registry  New of internal/provider/provider.go: every name, where the constructors of the
--                    clients that are not modelled, and of custom, are taken as given, as is the
--                    decoding of the replies of cloudflare, digitalocean and njalla; `is_covered` are
--                    the thirty names that need nothing given
-- The modules under these hold the proofs, as do Providers/Contract, Acceptance, Capitals, Recorded and
-- Rewriting, and Tests holds concrete runs. Prelude has what they share: lists and signed numbers over
-- the native numbers, Go strings as lists of bytes, and the printing of integers.
--
-- State is passed explicitly. A collaborator (clock, DNS provider, fetcher, resolver, file system) is
-- a function of a tick, which counts the calls made, so that every sequence of answers is an
-- environment; `World` holds the tick, the database and the notifications sent. A Go error is a
-- constructor of a result type, without the text where nothing reads it, and a panic is a third
-- outcome. Locks are left out: an operation under a lock is one step. The loop `run` takes a sequence
-- of events; a forced update comes with whether its caller still receives from the unbuffered channel
-- of the results.
--
-- Fuel: `extract` and the loop over the ring of urls recurse on fuel. `extract` gets one more than the
-- length of the text, and each round takes a byte; the ring gets its number of urls, and each round
-- passes a banned url or ends the loop. `itoa` writes 20 digits at most, enough for 64 bits. The tries of a lookup and of a fetch count down.
--
-- A client of a DNS provider is given whatever answers its requests: a function of the number of the
-- request and of the request. A reply is one that was not had, one whose body is not read, or a status
-- with a body. A URL is its parts; encoding and escaping are those of net/url. Bodies are taken as
-- ASCII where they are trimmed and made lower case. Decoding of JSON is encoding/json: the raw
-- settings are its object, and the decoding of a reply is a parameter.
--
-- Not modelled: the clients of the other JSON and XML services, among them those that make several
-- requests but digitalocean and cloudflare (internal/update and internal/params take provider.New and
-- Provider.Update as parameters, as they do the list of public suffixes), reading and writing the
-- settings file, the environment, the pages and the password file of the web server, the backup,
-- notifications as HTTP requests, and the logs.
pub mod Prelude
pub mod Result
pub mod Times
pub mod Netip
pub mod IpVersion
pub mod Domain
pub mod Ipextract
pub mod Models
pub mod Suffix
pub mod Params
pub mod Persistence
pub mod Data
pub mod Health
pub mod Publicip
pub mod Server
pub mod Update
pub mod Provider
pub mod Providers
mod Tests
