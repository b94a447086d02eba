-- ===== src/Publicip/Http.antt =====
-- pkg/publicip/http: echo services over HTTP, a ring of them for each IP version.
pub mod Ring
pub mod Ask
pub mod Fetch
use ddns_updater.Prelude.{
  ◌==◌, if◌then◌else◌, length, get_elem?, Text, replace_byte, ℕ, zero, suc, ◌+◌, ◌%◌, Bool, true,
  false, not, ◌&&◌, ◌||◌, Option, none, some, List, [], ◌∷◌,
}
use ddns_updater.Result.{Result, ok, err, panic}
use ddns_updater.Netip.{Addr}
use ddns_updater.IpVersion.{IpVersion, ip4or6, ip4, ip6}
use ddns_updater.Ipextract.{ipv4, ipv6}

pub data FetchError : Type 0 where
  request_failed read_failed no_ip_found too_many_ips : FetchError
  banned : Text → FetchError

-- What an HTTP request comes to: it fails, or there is a status and a body that can be read or not.
pub data Reply : Type 0 where
  failed : Reply
  unreadable : ℕ → Reply
  reply : ℕ → Text → Reply

-- http.StatusForbidden and http.StatusTooManyRequests
abbrev pub is_ban : ℕ → Bool
is_ban status = status == 403 || status == 429

-- The `switch` on len(ips) for one version.
abbrev one_of : List Addr → Result FetchError Addr
one_of [] = err no_ip_found
one_of (a ∷ []) = ok a
one_of (a ∷ b ∷ rest) = err too_many_ips

-- The `switch` for IP4or6, with priority to IPv4.
abbrev one_of_both : List Addr → List Addr → Result FetchError Addr
one_of_both (a ∷ []) sixes = ok a
one_of_both fours (b ∷ []) = ok b
one_of_both (a ∷ c ∷ rest) sixes = err too_many_ips
one_of_both [] (b ∷ c ∷ rest) = err too_many_ips
one_of_both [] [] = err no_ip_found

unfoldable pub addresses_of : IpVersion → Text → Result FetchError Addr
addresses_of ip4or6 body = one_of_both (ipv4 body) (ipv6 body)
addresses_of ip4 body = one_of (ipv4 body)
addresses_of ip6 body = one_of (ipv6 body)

-- toSingleLine, which replaces two spaces by one, twice
unfoldable pub squeeze : Text → Text
squeeze [] = []
squeeze (c ∷ []) = c ∷ []
squeeze (c ∷ d ∷ cs) = if c == b' ' && d == b' ' then b' ' ∷ squeeze cs else c ∷ squeeze (d ∷ cs)

unfoldable pub to_single_line : Text → Text
unfolding squeeze
to_single_line s = squeeze (squeeze (replace_byte 13 [] (replace_byte 10 [] s)))

-- fetch; the text of a ban is the body, as one line
unfoldable pub fetch : IpVersion → Reply → Result FetchError Addr
fetch version failed = err request_failed
fetch version (unreadable status) = if is_ban status then err (banned []) else err read_failed
fetch version (reply status body) =
    if is_ban status then err (banned (to_single_line body)) else addresses_of version body

pub record UrlsRing : Type 0 where
  pub index : ℕ
  pub urls : List Text
  pub banned : List (ℕ × Text)

-- A lookup in the map ring.banned.
unfoldable pub is_banned : List (ℕ × Text) → ℕ → Bool
is_banned [] i = false
is_banned ((j, s) ∷ bans) i = j == i || is_banned bans i

-- The loop over the ring of `n` urls. The result is `true` with the index of a url that is not
-- banned, or `false` if `n` banned ones were counted; `none` means that the fuel ran out.
unfoldable pub choose : ℕ → ℕ → List (ℕ × Text) → ℕ → ℕ → Option (Bool × ℕ)
choose zero n bans index count = none
choose (suc fuel) n bans index count =
    let index' = (index + 1) % n in
    let rest = choose fuel n bans index' (count + 1) in
    if not (is_banned bans index')
    then some (true, index')
    else if count + 1 == n
    then some (false, index')
    else rest

-- What follows the loop, with `fetch` at the url of an index.
unfoldable pub record_ban :
    UrlsRing → ℕ → Result FetchError Addr → Result FetchError Addr × UrlsRing
record_ban ring i (err (banned s)) = (err (banned s), record ring { banned = (i, s) ∷ ring.banned })
record_ban ring i result = (result, ring)

pub url_at : List Text → ℕ → Text
url_at urls i = elim (get_elem? urls i) [ none ↦ [] | some u ↦ u ]

unfoldable pub ip_at :
    (Text → Result FetchError Addr)
    → UrlsRing
    → Option (Bool × ℕ)
    → Result FetchError Addr × UrlsRing
ip_at ask ring none = (panic, ring)
ip_at ask ring (some (true, i)) =
    record_ban (record ring { index = i }) i (ask (url_at ring.urls i))
ip_at ask ring (some (false, i)) = (err (banned []), record ring { index = i })

-- Fetcher.ip, with what a request to a url comes to; an empty ring divides by zero. The text of the
-- error for a ring that is banned throughout (banString) is left out.
unfoldable pub ip : (Text → Result FetchError Addr) → UrlsRing → Result FetchError Addr × UrlsRing
ip ask ring =
    if length ring.urls == 0
    then (panic, ring)
    else ip_at ask ring (choose (length ring.urls) (length ring.urls) ring.banned ring.index 0)
