-- ===== src/Providers/Contract.antt =====
-- internal/provider/provider.go: what the covered clients that New builds keep to, whatever the service.
use ddns_updater.Prelude.{Text, ◌≡◌, refl, subst, Bool, true, false}
use ddns_updater.Result.{Result, ok, err, panic}
use ddns_updater.IpVersion.{IpVersion}
use ddns_updater.Netip.{Prefix}
use ddns_updater.Provider.{SettingsError, Object, Provider}
use ddns_updater.Provider.Laws.{Confirms}
use ddns_updater.Providers.Registry.{
  Name, Given, is_covered, as_provider, new, all_inkl, changeip, dd24, ddnss_de, de_sec,
  dns_o_matic, domeneshop, duck_dns, dyn, dynu, dyn_v6, easy_dns, free_dns, gandi, godaddy, go_ip,
  he, infomaniak, inwx, ipv64, loopia, myaddr, no_ip, now_dns, open_dns, selfhost_de, spdyn, strato,
  variomedia, zoneedit, cloudflare, digital_ocean, njalla, other, unknown,
}
use ddns_updater.Providers.Allinkl
use ddns_updater.Providers.Changeip
use ddns_updater.Providers.Dd24
use ddns_updater.Providers.Ddnss
use ddns_updater.Providers.Desec
use ddns_updater.Providers.Dnsomatic
use ddns_updater.Providers.Domeneshop
use ddns_updater.Providers.Duckdns
use ddns_updater.Providers.Dyn
use ddns_updater.Providers.Dynu
use ddns_updater.Providers.Dynv6
use ddns_updater.Providers.Easydns
use ddns_updater.Providers.Freedns
use ddns_updater.Providers.Gandi
use ddns_updater.Providers.Godaddy
use ddns_updater.Providers.Goip
use ddns_updater.Providers.He
use ddns_updater.Providers.Infomaniak
use ddns_updater.Providers.Inwx
use ddns_updater.Providers.Ipv64
use ddns_updater.Providers.Loopia
use ddns_updater.Providers.Myaddr
use ddns_updater.Providers.Noip
use ddns_updater.Providers.Nowdns
use ddns_updater.Providers.Opendns
use ddns_updater.Providers.Selfhostde
use ddns_updater.Providers.Spdyn
use ddns_updater.Providers.Strato
use ddns_updater.Providers.Variomedia
use ddns_updater.Providers.Zoneedit

-- he.net alone does not look at the status of the reply.
abbrev pub looks_at_status : Name → Bool
looks_at_status he = false
looks_at_status _ = true

-- freedns takes the address from the connection; gandi takes it in a list, an IPv4 address unmapped.
abbrev pub sends_address : Name → Bool
sends_address free_dns = false
sends_address gandi = false
sends_address _ = true

abbrev ok_provider : Provider → Result SettingsError Provider
ok_provider p = ok p

ok_inj : {p q : Provider} → ok_provider p ≡ ok_provider q → p ≡ q
ok_inj h = cc

pub built {ℓ κ} :
    {A : Type ℓ} (P : Provider → Type κ) (provider : A → Provider) (r : Result SettingsError A)
    → ((a : A) → r ≡ ok a → P (provider a))
    → (p : Provider) → as_provider provider r ≡ ok p
    → P p
built P provider (ok a) holds p h = subst P (ok_inj h) (holds a refl)
built P provider (err e) holds p h = cc
built P provider panic holds p h = cc

-- For each of the thirty services that are covered (`is_covered`; those left out are cloudflare,
-- digitalocean, njalla, custom and the services that are not modelled): a client that New builds and
-- whose Update succeeds returns the address that it was given, and rests on the reply to one request,
-- in that Update succeeds with whatever else gives this reply: a request over https, answered with a
-- success status but for he.net, that has the address among its parameters but for freedns and gandi.
pub new-Confirms :
    (g : Given) (name : Name) (raw : Object) (domain owner : Text) (version : IpVersion)
    (suffix : Prefix) (p : Provider)
    → is_covered name ≡ true
    → new g name raw domain owner version suffix ≡ ok p
    → Confirms (looks_at_status name) (sends_address name) p.update
unfolding new
new-Confirms g all_inkl raw domain owner version suffix p covered =
    built (λ p. Confirms true true p.update) Allinkl.provider _ (λ p h. Allinkl.update-Confirms p) p
new-Confirms g changeip raw domain owner version suffix p covered =
    built (λ p. Confirms true true p.update) Changeip.provider _ (λ p h. Changeip.update-Confirms p)
      p
new-Confirms g dd24 raw domain owner version suffix p covered =
    built (λ p. Confirms true true p.update) Dd24.provider _ (λ p h. Dd24.update-Confirms p) p
new-Confirms g ddnss_de raw domain owner version suffix p covered =
    built (λ p. Confirms true true p.update) Ddnss.provider _ (λ p h. Ddnss.update-Confirms p) p
new-Confirms g de_sec raw domain owner version suffix p covered =
    built (λ p. Confirms true true p.update) Desec.provider _ (λ p h. Desec.update-Confirms p) p
new-Confirms g dns_o_matic raw domain owner version suffix p covered =
    built (λ p. Confirms true true p.update) Dnsomatic.provider _
      (λ p h. Dnsomatic.update-Confirms p) p
new-Confirms g domeneshop raw domain owner version suffix p covered =
    built (λ p. Confirms true true p.update) Domeneshop.provider _
      (λ p h. Domeneshop.update-Confirms p) p
new-Confirms g duck_dns raw domain owner version suffix p covered =
    built (λ p. Confirms true true p.update) Duckdns.provider _ (λ p h. Duckdns.update-Confirms p) p
new-Confirms g dyn raw domain owner version suffix p covered =
    built (λ p. Confirms true true p.update) Dyn.provider _ (λ p h. Dyn.update-Confirms p) p
new-Confirms g dynu raw domain owner version suffix p covered =
    built (λ p. Confirms true true p.update) Dynu.provider _ (λ p h. Dynu.update-Confirms p) p
new-Confirms g dyn_v6 raw domain owner version suffix p covered =
    built (λ p. Confirms true true p.update) Dynv6.provider _ (λ p h. Dynv6.update-Confirms p) p
new-Confirms g easy_dns raw domain owner version suffix p covered =
    built (λ p. Confirms true true p.update) Easydns.provider _ (λ p h. Easydns.update-Confirms p) p
new-Confirms g free_dns raw domain owner version suffix p covered =
    built (λ p. Confirms true false p.update) Freedns.provider _ (λ p h. Freedns.update-Confirms p)
      p
new-Confirms g gandi raw domain owner version suffix p covered =
    built (λ p. Confirms true false p.update) Gandi.provider _ (λ p h. Gandi.update-Confirms p) p
new-Confirms g godaddy raw domain owner version suffix p covered =
    built (λ p. Confirms true true p.update) Godaddy.provider _ (λ p h. Godaddy.update-Confirms p) p
new-Confirms g go_ip raw domain owner version suffix p covered =
    built (λ p. Confirms true true p.update) Goip.provider _ (λ p h. Goip.update-Confirms p) p
new-Confirms g he raw domain owner version suffix p covered =
    built (λ p. Confirms false true p.update) He.provider _ (λ p h. He.update-Confirms p) p
new-Confirms g infomaniak raw domain owner version suffix p covered =
    built (λ p. Confirms true true p.update) Infomaniak.provider _
      (λ p h. Infomaniak.update-Confirms p) p
new-Confirms g inwx raw domain owner version suffix p covered =
    built (λ p. Confirms true true p.update) Inwx.provider _ (λ p h. Inwx.update-Confirms p) p
new-Confirms g ipv64 raw domain owner version suffix p covered =
    built (λ p. Confirms true true p.update) Ipv64.provider _ (λ p h. Ipv64.update-Confirms p) p
new-Confirms g loopia raw domain owner version suffix p covered =
    built (λ p. Confirms true true p.update) Loopia.provider _ (λ p h. Loopia.update-Confirms p) p
new-Confirms g myaddr raw domain owner version suffix p covered =
    built (λ p. Confirms true true p.update) Myaddr.provider _ (λ p h. Myaddr.update-Confirms p) p
new-Confirms g no_ip raw domain owner version suffix p covered =
    built (λ p. Confirms true true p.update) Noip.provider _ (λ p h. Noip.update-Confirms p) p
new-Confirms g now_dns raw domain owner version suffix p covered =
    built (λ p. Confirms true true p.update) Nowdns.provider _ (λ p h. Nowdns.update-Confirms p) p
new-Confirms g open_dns raw domain owner version suffix p covered =
    built (λ p. Confirms true true p.update) Opendns.provider _ (λ p h. Opendns.update-Confirms p) p
new-Confirms g selfhost_de raw domain owner version suffix p covered =
    built (λ p. Confirms true true p.update) Selfhostde.provider _
      (λ p h. Selfhostde.update-Confirms p) p
new-Confirms g spdyn raw domain owner version suffix p covered =
    built (λ p. Confirms true true p.update) Spdyn.provider _ (λ p h. Spdyn.update-Confirms p) p
new-Confirms g strato raw domain owner version suffix p covered =
    built (λ p. Confirms true true p.update) Strato.provider _ (λ p h. Strato.update-Confirms p) p
new-Confirms g variomedia raw domain owner version suffix p covered =
    built (λ p. Confirms true true p.update) Variomedia.provider _
      (λ p h. Variomedia.update-Confirms p) p
new-Confirms g zoneedit raw domain owner version suffix p covered =
    built (λ p. Confirms true true p.update) Zoneedit.provider _ (λ p h. Zoneedit.update-Confirms p)
      p
new-Confirms g cloudflare raw domain owner version suffix p covered = cc
new-Confirms g digital_ocean raw domain owner version suffix p covered = cc
new-Confirms g njalla raw domain owner version suffix p covered = cc
new-Confirms g (other o) raw domain owner version suffix p covered = cc
new-Confirms g (unknown text) raw domain owner version suffix p covered = cc
