-- ===== src/Providers/Acceptance.antt =====
-- internal/provider/provider.go: what the covered clients that New builds keep of the settings, whatever
-- the service.
use ddns_updater.Prelude.{Text, ◌≡◌, Bool, true, false}
use ddns_updater.Result.{ok}
use ddns_updater.IpVersion.{IpVersion}
use ddns_updater.Netip.{Prefix}
use ddns_updater.Provider.{Object, Provider}
use ddns_updater.Provider.Laws.{Accepted}
use ddns_updater.Providers.Registry.{
  Name, Given, is_covered, new, all_inkl, changeip, dd24, ddnss_de, de_sec, dns_o_matic, domeneshop,
  duck_dns, dyn, dynu, dyn_v6, easy_dns, free_dns, gandi, godaddy, go_ip, he, infomaniak, inwx,
  ipv64, loopia, myaddr, no_ip, now_dns, open_dns, selfhost_de, spdyn, strato, variomedia, zoneedit,
  cloudflare, digital_ocean, njalla, other, unknown,
}
use ddns_updater.Providers.Allinkl
use ddns_updater.Providers.Changeip
use ddns_updater.Providers.Dd24
use ddns_updater.Providers.Ddnss
use ddns_updater.Providers.Desec
use ddns_updater.Providers.Dnsomatic
use ddns_updater.Providers.Domeneshop
use ddns_updater.Providers.Dyn
use ddns_updater.Providers.Dynu
use ddns_updater.Providers.Dynv6
use ddns_updater.Providers.Easydns
use ddns_updater.Providers.Freedns
use ddns_updater.Providers.Gandi
use ddns_updater.Providers.Godaddy
use ddns_updater.Providers.He
use ddns_updater.Providers.Infomaniak
use ddns_updater.Providers.Inwx
use ddns_updater.Providers.Ipv64
use ddns_updater.Providers.Loopia
use ddns_updater.Providers.Myaddr
use ddns_updater.Providers.Noip
use ddns_updater.Providers.Nowdns
use ddns_updater.Providers.Opendns
use ddns_updater.Providers.Selfhostde
use ddns_updater.Providers.Spdyn
use ddns_updater.Providers.Strato
use ddns_updater.Providers.Variomedia
use ddns_updater.Providers.Zoneedit
use ddns_updater.Providers.Contract.{built}

-- The services whose domains stand under a fixed effective TLD, without CheckDomain.
abbrev pub has_fixed_tld : Name → Bool
has_fixed_tld duck_dns = true
has_fixed_tld go_ip = true
has_fixed_tld _ = false

-- The services that take the owner `*`.
abbrev pub takes_wildcard : Name → Bool
takes_wildcard changeip = true
takes_wildcard dd24 = true
takes_wildcard de_sec = true
takes_wildcard dns_o_matic = true
takes_wildcard dyn = true
takes_wildcard easy_dns = true
takes_wildcard free_dns = true
takes_wildcard he = true
takes_wildcard inwx = true
takes_wildcard ipv64 = true
takes_wildcard myaddr = true
takes_wildcard zoneedit = true
takes_wildcard gandi = true
takes_wildcard godaddy = true
takes_wildcard _ = false

-- For each of the thirty services that are covered (`is_covered`) but the two that stand under a fixed
-- TLD, duckdns and goip: where New succeeds, the domain is valid, the domain, the version and the
-- suffix are those that were given, and the owner is `*` only for a service that takes wildcards.
pub new-Accepted :
    (g : Given) (name : Name) (raw : Object) (domain owner : Text) (version : IpVersion)
    (suffix : Prefix) (p : Provider)
    → is_covered name ≡ true
    → has_fixed_tld name ≡ false
    → new g name raw domain owner version suffix ≡ ok p
    → Accepted (takes_wildcard name) domain version suffix p
unfolding new
new-Accepted g all_inkl raw domain owner version suffix p covered named =
    built (Accepted false domain version suffix) Allinkl.provider _
      (Allinkl.new-Accepted raw domain owner version suffix) p
new-Accepted g changeip raw domain owner version suffix p covered named =
    built (Accepted true domain version suffix) Changeip.provider _
      (Changeip.new-Accepted raw domain owner version suffix) p
new-Accepted g dd24 raw domain owner version suffix p covered named =
    built (Accepted true domain version suffix) Dd24.provider _
      (Dd24.new-Accepted raw domain owner version suffix) p
new-Accepted g ddnss_de raw domain owner version suffix p covered named =
    built (Accepted false domain version suffix) Ddnss.provider _
      (Ddnss.new-Accepted raw domain owner version suffix) p
new-Accepted g de_sec raw domain owner version suffix p covered named =
    built (Accepted true domain version suffix) Desec.provider _
      (Desec.new-Accepted raw domain owner version suffix) p
new-Accepted g dns_o_matic raw domain owner version suffix p covered named =
    built (Accepted true domain version suffix) Dnsomatic.provider _
      (Dnsomatic.new-Accepted raw domain owner version suffix) p
new-Accepted g domeneshop raw domain owner version suffix p covered named =
    built (Accepted false domain version suffix) Domeneshop.provider _
      (Domeneshop.new-Accepted raw domain owner version suffix) p
new-Accepted g duck_dns raw domain owner version suffix p covered named = cc
new-Accepted g dyn raw domain owner version suffix p covered named =
    built (Accepted true domain version suffix) Dyn.provider _
      (Dyn.new-Accepted raw domain owner version suffix) p
new-Accepted g dynu raw domain owner version suffix p covered named =
    built (Accepted false domain version suffix) Dynu.provider _
      (Dynu.new-Accepted raw domain owner version suffix) p
new-Accepted g dyn_v6 raw domain owner version suffix p covered named =
    built (Accepted false domain version suffix) Dynv6.provider _
      (Dynv6.new-Accepted raw domain owner version suffix) p
new-Accepted g easy_dns raw domain owner version suffix p covered named =
    built (Accepted true domain version suffix) Easydns.provider _
      (Easydns.new-Accepted raw domain owner version suffix) p
new-Accepted g free_dns raw domain owner version suffix p covered named =
    built (Accepted true domain version suffix) Freedns.provider _
      (Freedns.new-Accepted raw domain owner version suffix) p
new-Accepted g gandi raw domain owner version suffix p covered named =
    built (Accepted true domain version suffix) Gandi.provider _
      (Gandi.new-Accepted raw domain owner version suffix) p
new-Accepted g godaddy raw domain owner version suffix p covered named =
    built (Accepted true domain version suffix) Godaddy.provider _
      (Godaddy.new-Accepted raw domain owner version suffix) p
new-Accepted g go_ip raw domain owner version suffix p covered named = cc
new-Accepted g he raw domain owner version suffix p covered named =
    built (Accepted true domain version suffix) He.provider _
      (He.new-Accepted raw domain owner version suffix) p
new-Accepted g infomaniak raw domain owner version suffix p covered named =
    built (Accepted false domain version suffix) Infomaniak.provider _
      (Infomaniak.new-Accepted raw domain owner version suffix) p
new-Accepted g inwx raw domain owner version suffix p covered named =
    built (Accepted true domain version suffix) Inwx.provider _
      (Inwx.new-Accepted raw domain owner version suffix) p
new-Accepted g ipv64 raw domain owner version suffix p covered named =
    built (Accepted true domain version suffix) Ipv64.provider _
      (Ipv64.new-Accepted raw domain owner version suffix) p
new-Accepted g loopia raw domain owner version suffix p covered named =
    built (Accepted false domain version suffix) Loopia.provider _
      (Loopia.new-Accepted raw domain owner version suffix) p
new-Accepted g myaddr raw domain owner version suffix p covered named =
    built (Accepted true domain version suffix) Myaddr.provider _
      (Myaddr.new-Accepted raw domain owner version suffix) p
new-Accepted g no_ip raw domain owner version suffix p covered named =
    built (Accepted false domain version suffix) Noip.provider _
      (Noip.new-Accepted raw domain owner version suffix) p
new-Accepted g now_dns raw domain owner version suffix p covered named =
    built (Accepted false domain version suffix) Nowdns.provider _
      (Nowdns.new-Accepted raw domain version suffix) p
new-Accepted g open_dns raw domain owner version suffix p covered named =
    built (Accepted false domain version suffix) Opendns.provider _
      (Opendns.new-Accepted raw domain owner version suffix) p
new-Accepted g selfhost_de raw domain owner version suffix p covered named =
    built (Accepted false domain version suffix) Selfhostde.provider _
      (Selfhostde.new-Accepted raw domain owner version suffix) p
new-Accepted g spdyn raw domain owner version suffix p covered named =
    built (Accepted false domain version suffix) Spdyn.provider _
      (Spdyn.new-Accepted raw domain owner version suffix) p
new-Accepted g strato raw domain owner version suffix p covered named =
    built (Accepted false domain version suffix) Strato.provider _
      (Strato.new-Accepted raw domain owner version suffix) p
new-Accepted g variomedia raw domain owner version suffix p covered named =
    built (Accepted false domain version suffix) Variomedia.provider _
      (Variomedia.new-Accepted raw domain owner version suffix) p
new-Accepted g zoneedit raw domain owner version suffix p covered named =
    built (Accepted true domain version suffix) Zoneedit.provider _
      (Zoneedit.new-Accepted raw domain owner version suffix) p
new-Accepted g cloudflare raw domain owner version suffix p covered named = cc
new-Accepted g digital_ocean raw domain owner version suffix p covered named = cc
new-Accepted g njalla raw domain owner version suffix p covered named = cc
new-Accepted g (other o) raw domain owner version suffix p covered named = cc
new-Accepted g (unknown text) raw domain owner version suffix p covered named = cc
