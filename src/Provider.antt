-- ===== src/Provider.antt =====
-- internal/provider/provider.go: the interface `Provider`, and what the clients of the DNS services
-- share.
mod Http
mod Raw
pub mod Laws
pub mod Etld
pub mod Capitals
unfoldable pub use Http.*
unfoldable pub use Raw.*
use ddns_updater.Prelude.{Text, bytes, Bool, false, ◌++◌}
use ddns_updater.Result.{Result}
use ddns_updater.IpVersion
use ddns_updater.IpVersion.{IpVersion}
use ddns_updater.Netip.{Addr, Prefix}
use ddns_updater.Domain.{build_domain_name}

-- What a provider puts into models.HTMLRow
pub record HtmlRow : Type 0 where
  pub domain : Text
  pub owner : Text
  pub provider : Text
  pub ip_version : Text

-- utils.ToString
unfoldable pub to_string : Text → Text → Text → IpVersion → Text
to_string domain owner provider version =
    bytes "[domain: "
    ++ (domain
        ++ (bytes " | owner: "
            ++ (owner
                ++ (bytes " | provider: "
                    ++ (provider
                        ++ (bytes " | ip: " ++ (IpVersion.to_string version ++ bytes "]")))))))

-- The interface `Provider`
pub record Provider : Type 0 where
  pub string : Text
  pub domain : Text
  pub owner : Text
  pub build_domain_name : Text
  pub html : HtmlRow
  pub proxied : Bool
  pub ip_version : IpVersion
  pub ipv6_suffix : Prefix
  pub update : Client → Addr → Result UpdateError Addr

abbrev pub domain_link : Text → Text
domain_link name = bytes "<a href=\"http://" ++ (name ++ (bytes "\">" ++ (name ++ bytes "</a>")))

-- The methods beside Update, which most providers write alike: from the provider's name, its link,
-- and the four fields that all of them have.
unfoldable pub methods :
    Text
    → Text
    → Text
    → Text
    → IpVersion
    → Prefix
    → (Client → Addr → Result UpdateError Addr)
    → Provider
methods name link domain owner version suffix update = record {
  string = to_string domain owner name version;
  domain = domain;
  owner = owner;
  build_domain_name = build_domain_name owner domain;
  html = record {
    domain = domain_link (build_domain_name owner domain);
    owner = owner;
    provider = link;
    ip_version = IpVersion.to_string version;
  };
  proxied = false;
  ip_version = version;
  ipv6_suffix = suffix;
  update = update;
}
