-- ===== src/Tests/Documents.antt =====
-- Runs of the clients that exchange documents, in internal/provider/providers.
use ddns_updater.Prelude.{Text, bytes, has_prefix, ◌≡◌, refl, ◌↔◌, true, false, some, [], ◌∷◌}
use ddns_updater.Prelude.Int.{pos}
use ddns_updater.Result.{ok}
use ddns_updater.Provider.{get}
use ddns_updater.Prelude.Digits.{itoa, digits}
use ddns_updater.IpVersion.{ip4}
use ddns_updater.Providers.Digitalocean
use ddns_updater.Providers.Digitalocean.{Digitalocean}
use ddns_updater.Providers.Digitalocean.Update.{Changed, update_iff}
use ddns_updater.Providers.Cloudflare
use ddns_updater.Providers.Cloudflare.{Cloudflare, Listed, Written, has_email, is_user_service_key}
use ddns_updater.Providers.Cloudflare.Update.{Settled, update_settled_iff}
use ddns_updater.Netip.{no_prefix}
use ddns_updater.Tests.Clients.{address, confirms}

abbrev digitalocean_client : Digitalocean
digitalocean_client = record {
  domain = bytes "ab.net";
  owner = bytes "www";
  ip_version = ip4;
  ipv6_suffix = no_prefix;
  token = bytes "secret";
}

update_iff_example :
    (Digitalocean.update
        (λ b. some (pos 7 ∷ []))
        (λ b. some (bytes "1.2.3.4"))
        digitalocean_client
        confirms
        address
      ≡ ok address)
    ↔ ((address ≡ address)
        × Changed
            (λ b. some (pos 7 ∷ []))
            (λ b. some (bytes "1.2.3.4"))
            digitalocean_client
            confirms
            address)
update_iff_example =
    update_iff (λ b. some (pos 7 ∷ [])) (λ b. some (bytes "1.2.3.4")) digitalocean_client confirms
      address address

abbrev cloudflare_client : Cloudflare
cloudflare_client = record {
  domain = bytes "ab.net";
  owner = bytes "www";
  ip_version = ip4;
  ipv6_suffix = no_prefix;
  key = [];
  token = bytes "secret";
  email = [];
  user_service_key = [];
  zone_identifier = bytes "zone";
  proxied = true;
  ttl = 1;
}

abbrev nothing_listed : Listed
nothing_listed = record { success = true; errors = []; result = [] }

abbrev written : Text → Written
written told = record { success = true; result = told }

update_settled_iff_example :
    (Cloudflare.update
        (λ b. some nothing_listed)
        (λ b. some (written (bytes "id")))
        (λ b. some (written (bytes "1.2.3.4")))
        cloudflare_client
        confirms
        address
      ≡ ok address)
    ↔ ((address ≡ address)
        × Settled
            (λ b. some nothing_listed)
            (λ b. some (written (bytes "id")))
            (λ b. some (written (bytes "1.2.3.4")))
            cloudflare_client
            confirms
            address)
update_settled_iff_example =
    update_settled_iff (λ b. some nothing_listed) (λ b. some (written (bytes "id")))
      (λ b. some (written (bytes "1.2.3.4"))) cloudflare_client confirms address address

email_inside : has_email (bytes "<me.too+x@mail.ab-c.org>") ≡ true
unfolding has_email bytes
email_inside = refl

email_without_tld : has_email (bytes "me@localhost") ≡ false
unfolding has_email bytes
email_without_tld = refl

short_service_key : is_user_service_key (bytes "v1.0") ≡ false
unfolding is_user_service_key bytes has_prefix
short_service_key = refl

record_path :
    (Digitalocean.put_request digitalocean_client (pos 3352896) address).path
    ≡ bytes "/v2/domains/ab.net/records/3352896"
unfolding Digitalocean.put_request get itoa digits bytes
record_path = refl
