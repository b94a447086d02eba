-- ===== src/Providers/Registry.antt =====
-- internal/provider/provider.go: the choice of the client by the name of the provider. The clients that
-- are not modelled are taken as given, as is the client of custom, whose Update changes it.
use ddns_updater.Prelude.{Text, Bool, true, false, Option, List}
use ddns_updater.Prelude.Int.{ℤ}
use ddns_updater.Result.{Result, ok, err, panic}
use ddns_updater.IpVersion.{IpVersion}
use ddns_updater.Netip.{Prefix}
use ddns_updater.Provider.{SettingsError, provider_unknown, Object, Provider}
use ddns_updater.Providers.Allinkl
use ddns_updater.Providers.Changeip
use ddns_updater.Providers.Cloudflare
use ddns_updater.Providers.Cloudflare.{Listed, Written}
use ddns_updater.Providers.Dd24
use ddns_updater.Providers.Ddnss
use ddns_updater.Providers.Desec
use ddns_updater.Providers.Digitalocean
use ddns_updater.Providers.Dnsomatic
use ddns_updater.Providers.Domeneshop
use ddns_updater.Providers.Duckdns
use ddns_updater.Providers.Dyn
use ddns_updater.Providers.Dynu
use ddns_updater.Providers.Dynv6
use ddns_updater.Providers.Easydns
use ddns_updater.Providers.Freedns
use ddns_updater.Providers.Gandi
use ddns_updater.Providers.Godaddy
use ddns_updater.Providers.Goip
use ddns_updater.Providers.He
use ddns_updater.Providers.Infomaniak
use ddns_updater.Providers.Inwx
use ddns_updater.Providers.Ipv64
use ddns_updater.Providers.Loopia
use ddns_updater.Providers.Myaddr
use ddns_updater.Providers.Njalla
use ddns_updater.Providers.Njalla.{Message}
use ddns_updater.Providers.Noip
use ddns_updater.Providers.Nowdns
use ddns_updater.Providers.Opendns
use ddns_updater.Providers.Selfhostde
use ddns_updater.Providers.Spdyn
use ddns_updater.Providers.Strato
use ddns_updater.Providers.Variomedia
use ddns_updater.Providers.Zoneedit

-- The constants of constants/providers.go whose client is taken as given
pub data Other : Type 0 where
  aliyun custom dns_pod don_dominio dreamhost example gcp hetzner : Other
  hetzner_cloud ionos linode lua_dns namecheap name_com name_silo netcup : Other
  ovh porkbun route53 scaleway servercow spaceship vercel vultr : Other

-- The constants of constants/providers.go, and any other text
pub data Name : Type 0 where
  all_inkl changeip dd24 ddnss_de de_sec dns_o_matic domeneshop duck_dns : Name
  dyn dynu dyn_v6 easy_dns free_dns gandi godaddy go_ip he infomaniak : Name
  inwx ipv64 loopia myaddr no_ip now_dns open_dns selfhost_de : Name
  spdyn strato variomedia zoneedit cloudflare digital_ocean njalla : Name
  other : Other → Name
  unknown : Text → Name

-- What New takes as given: the decoding of replies, and the other constructors.
pub record Given : Type 0 where
  pub decode_listed : Text → Option Listed
  pub decode_created : Text → Option Written
  pub decode_updated : Text → Option Written
  pub decode_records : Text → Option (List ℤ)
  pub decode_record : Text → Option Text
  pub decode_message : Text → Option Message
  pub new_other : Other → Object → Text → Text → IpVersion → Prefix → Result SettingsError Provider

abbrev pub as_provider {ℓ} :
    {A : Type ℓ} → (A → Provider) → Result SettingsError A → Result SettingsError Provider
as_provider provider (ok p) = ok (provider p)
as_provider provider (err e) = err e
as_provider provider panic = panic

-- New
unfoldable pub new :
    Given → Name → Object → Text → Text → IpVersion → Prefix → Result SettingsError Provider
new g all_inkl raw domain owner version suffix =
    as_provider Allinkl.provider (Allinkl.new raw domain owner version suffix)
new g changeip raw domain owner version suffix =
    as_provider Changeip.provider (Changeip.new raw domain owner version suffix)
new g dd24 raw domain owner version suffix =
    as_provider Dd24.provider (Dd24.new raw domain owner version suffix)
new g ddnss_de raw domain owner version suffix =
    as_provider Ddnss.provider (Ddnss.new raw domain owner version suffix)
new g de_sec raw domain owner version suffix =
    as_provider Desec.provider (Desec.new raw domain owner version suffix)
new g dns_o_matic raw domain owner version suffix =
    as_provider Dnsomatic.provider (Dnsomatic.new raw domain owner version suffix)
new g domeneshop raw domain owner version suffix =
    as_provider Domeneshop.provider (Domeneshop.new raw domain owner version suffix)
new g duck_dns raw domain owner version suffix =
    as_provider Duckdns.provider (Duckdns.new raw domain owner version suffix)
new g dyn raw domain owner version suffix =
    as_provider Dyn.provider (Dyn.new raw domain owner version suffix)
new g dynu raw domain owner version suffix =
    as_provider Dynu.provider (Dynu.new raw domain owner version suffix)
new g dyn_v6 raw domain owner version suffix =
    as_provider Dynv6.provider (Dynv6.new raw domain owner version suffix)
new g easy_dns raw domain owner version suffix =
    as_provider Easydns.provider (Easydns.new raw domain owner version suffix)
new g free_dns raw domain owner version suffix =
    as_provider Freedns.provider (Freedns.new raw domain owner version suffix)
new g gandi raw domain owner version suffix =
    as_provider Gandi.provider (Gandi.new raw domain owner version suffix)
new g godaddy raw domain owner version suffix =
    as_provider Godaddy.provider (Godaddy.new raw domain owner version suffix)
new g go_ip raw domain owner version suffix =
    as_provider Goip.provider (Goip.new raw domain owner version suffix)
new g he raw domain owner version suffix =
    as_provider He.provider (He.new raw domain owner version suffix)
new g infomaniak raw domain owner version suffix =
    as_provider Infomaniak.provider (Infomaniak.new raw domain owner version suffix)
new g inwx raw domain owner version suffix =
    as_provider Inwx.provider (Inwx.new raw domain owner version suffix)
new g ipv64 raw domain owner version suffix =
    as_provider Ipv64.provider (Ipv64.new raw domain owner version suffix)
new g loopia raw domain owner version suffix =
    as_provider Loopia.provider (Loopia.new raw domain owner version suffix)
new g myaddr raw domain owner version suffix =
    as_provider Myaddr.provider (Myaddr.new raw domain owner version suffix)
new g no_ip raw domain owner version suffix =
    as_provider Noip.provider (Noip.new raw domain owner version suffix)
new g now_dns raw domain owner version suffix =
    as_provider Nowdns.provider (Nowdns.new raw domain version suffix)
new g open_dns raw domain owner version suffix =
    as_provider Opendns.provider (Opendns.new raw domain owner version suffix)
new g selfhost_de raw domain owner version suffix =
    as_provider Selfhostde.provider (Selfhostde.new raw domain owner version suffix)
new g spdyn raw domain owner version suffix =
    as_provider Spdyn.provider (Spdyn.new raw domain owner version suffix)
new g strato raw domain owner version suffix =
    as_provider Strato.provider (Strato.new raw domain owner version suffix)
new g variomedia raw domain owner version suffix =
    as_provider Variomedia.provider (Variomedia.new raw domain owner version suffix)
new g zoneedit raw domain owner version suffix =
    as_provider Zoneedit.provider (Zoneedit.new raw domain owner version suffix)
new g cloudflare raw domain owner version suffix =
    as_provider (Cloudflare.provider g.decode_listed g.decode_created g.decode_updated)
      (Cloudflare.new raw domain owner version suffix)
new g digital_ocean raw domain owner version suffix =
    as_provider (Digitalocean.provider g.decode_records g.decode_record)
      (Digitalocean.new raw domain owner version suffix)
new g njalla raw domain owner version suffix =
    as_provider (Njalla.provider g.decode_message) (Njalla.new raw domain owner version suffix)
new g (other o) raw domain owner version suffix = g.new_other o raw domain owner version suffix
new g (unknown name) raw domain owner version suffix = err provider_unknown

-- The thirty clients that rest on no decoding of a reply that is given
abbrev pub is_covered : Name → Bool
is_covered cloudflare = false
is_covered digital_ocean = false
is_covered njalla = false
is_covered (other o) = false
is_covered (unknown name) = false
is_covered _ = true
