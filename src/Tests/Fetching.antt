-- ===== src/Tests/Fetching.antt =====
-- The public address fetchers (pkg/publicip).
use ddns_updater.Prelude.{
  length, Text, bytes, text_eq, split, ℕ, ◌<◌, ◌≡◌, refl, ◌⊎◌, true, false, Option, some, List, [],
  ◌∷◌, arith,
}
use ddns_updater.Result.{Result, ok, err}
use ddns_updater.Netip.{Addr, v4, is4, is6}
use ddns_updater.IpVersion.{ip4}
use ddns_updater.Ipextract.{
  ipv4, ipv6, extract, extract_loop, next_field, append_address, contains_byte, seen,
}
use ddns_updater.Netip.{addr_eq}
use ddns_updater.Netip.Parse.{parse_addr, parse_fields}
use ddns_updater.Publicip.Http
use ddns_updater.Publicip.Http.{
  FetchError, banned, reply, is_ban, UrlsRing, fetch, choose, is_banned, addresses_of, record_ban,
  url_at, to_single_line,
}
use ddns_updater.Publicip.Http.Fetch.{fetch-IsOfVersion}
use ddns_updater.Publicip.Http.Ring.{Takes, choose_total}
use ddns_updater.Publicip.Http.Ask.{IsRing, ip_asks, ip-IsRing}
use ddns_updater.Publicip.Dns
use ddns_updater.Publicip.Dns.{
  Answer, Provider, Network, cloudflare, open_dns, type_txt, txt, tcp, handle_answers,
  handle_answer, handle_answer_txt,
}
use ddns_updater.Publicip.Dns.Answers.{ip_versions}

abbrev page : Text
page = bytes "ip: 1.2.3.4"

fetches : fetch ip4 (reply 200 page) ≡ ok (v4 (1 ∷ 2 ∷ 3 ∷ 4 ∷ []))
unfolding fetch addresses_of ipv4 extract extract_loop next_field append_address contains_byte seen
    addr_eq text_eq parse_addr parse_fields split bytes
fetches = refl

fetch-IsOfVersion_example :
    (status : ℕ) × (body : Text) × (reply 200 page ≡ reply status body)
    × (is_ban status ≡ false)
    × (is4 (v4 (1 ∷ 2 ∷ 3 ∷ 4 ∷ [])) ≡ true)
    × ((ipv4 body ≡ v4 (1 ∷ 2 ∷ 3 ∷ 4 ∷ []) ∷ []) ⊎ (ipv6 body ≡ v4 (1 ∷ 2 ∷ 3 ∷ 4 ∷ []) ∷ []))
fetch-IsOfVersion_example = fetch-IsOfVersion ip4 (reply 200 page) (v4 (1 ∷ 2 ∷ 3 ∷ 4 ∷ [])) fetches

abbrev ring : UrlsRing
ring = record { index = 0; urls = bytes "u" ∷ bytes "v" ∷ bytes "w" ∷ []; banned = (1, []) ∷ [] }

skips_banned : choose 3 3 ring.banned 0 0 ≡ some (true, 2)
unfolding choose is_banned
skips_banned = refl

choose_total_example :
    Takes 3 3 0 ring.banned (choose 3 3 ring.banned 0 0)
    ⊎ (((i : ℕ) → i < 3 → is_banned ring.banned i ≡ true)
        × (choose 3 3 ring.banned 0 0 ≡ some (false, 0)))
choose_total_example = choose_total 3 0 ring.banned (omega arith)

abbrev ask : Text → Result FetchError Addr
ask url = err (banned [])

ip_asks_example :
    ((i : ℕ) × (i < length ring.urls)
      × (is_banned ring.banned i ≡ false)
      × (Http.ip ask ring ≡ record_ban (record ring { index = i }) i (ask (url_at ring.urls i))))
    ⊎ (((i : ℕ) → i < length ring.urls → is_banned ring.banned i ≡ true)
        × (Http.ip ask ring ≡ (err (banned []), ring)))
ip_asks_example = ip_asks ask ring (record { index_lt = omega arith })

ip-IsRing_example :
    let (answer, ring') = Http.ip ask ring in
    IsRing ring'
    × (ring'.urls ≡ ring.urls)
    × ((j : ℕ) → is_banned ring.banned j ≡ true → is_banned ring'.banned j ≡ true)
    × ((s : Text) → answer ≡ err (banned s) → is_banned ring'.banned ring'.index ≡ true)
ip-IsRing_example = ip-IsRing ask ring (record { index_lt = omega arith })

abbrev answers : List Answer
answers = record { rr_type = type_txt; body = txt (bytes "1.2.3.4" ∷ []) } ∷ []

answered : Dns.fetch type_txt (some answers) ≡ ok (v4 (1 ∷ 2 ∷ 3 ∷ 4 ∷ []) ∷ [])
unfolding Dns.fetch handle_answers handle_answer handle_answer_txt parse_addr parse_fields split
    bytes
answered = refl

abbrev exchange : Provider → Network → Option (List Answer)
exchange p n = some answers

ip_versions_example :
    ((a : Addr) → (Dns.ip4 exchange (cloudflare ∷ open_dns ∷ []) 1).0 ≡ ok a → is4 a ≡ true)
    × ((a : Addr) → (Dns.ip6 exchange (cloudflare ∷ open_dns ∷ []) 1).0 ≡ ok a → is6 a ≡ true)
    × ((ips : List Addr)
        → (Dns.ip exchange (cloudflare ∷ open_dns ∷ []) tcp 1).0 ≡ ok ips
        → (a : Addr) × ((Dns.ip_any exchange (cloudflare ∷ open_dns ∷ []) 1).0 ≡ ok a))
ip_versions_example = ip_versions exchange (cloudflare ∷ open_dns ∷ []) 1
