-- ===== src/Providers/Rewriting.antt =====
-- internal/provider/providers/duckdns/provider.go: settings of earlier versions, whose domain is
-- missing or only the effective TLD.
use ddns_updater.Prelude.{
  Text, bytes, text_eq_refl, is_empty, has_prefix, ◌≡◌, refl, subst, ◌⊎◌, inl, inr, false, [], ◌++◌,
}
use ddns_updater.Result.{ok}
use ddns_updater.IpVersion.{IpVersion}
use ddns_updater.Netip.{Prefix}
use ddns_updater.Domain.{build_url_query_hostname}
use ddns_updater.Provider.{Object, string_field}
use ddns_updater.Provider.Etld.{move_label-hostname}
use ddns_updater.Provider.Laws.{one_field, unless_refused-ok}
use ddns_updater.Providers.Duckdns
use ddns_updater.Providers.Duckdns.{Duckdns}

abbrev hostname_of : Text × Text → Text
hostname_of moved = build_url_query_hostname moved.1 moved.0

not_empty : is_empty (bytes "duckdns.org") ≡ false
unfolding bytes
not_empty = refl

rewritten-duckdns :
    (domain owner : Text)
    → (domain ≡ []) ⊎ (domain ≡ bytes "duckdns.org")
    → has_prefix owner (bytes "@.") ≡ false
    → hostname_of (Duckdns.rewritten domain owner) ≡ owner ++ (bytes "." ++ bytes "duckdns.org")
unfolding Duckdns.rewritten
rewritten-duckdns domain owner (inl e) h =
    rw (e, text_eq_refl (bytes "duckdns.org")) (move_label-hostname (bytes "duckdns.org") owner h)
rewritten-duckdns domain owner (inr e) h =
    rw (e, not_empty, text_eq_refl (bytes "duckdns.org"))
      (move_label-hostname (bytes "duckdns.org") owner h)

-- A client of duckdns that New builds from a domain that is missing or only `duckdns.org`, with an
-- owner that does not begin with `@.`, has the host name that its owner and `duckdns.org` make.
pub duckdns-hostname :
    (raw : Object) (domain owner : Text) (version : IpVersion) (suffix : Prefix) (p : Duckdns)
    → (domain ≡ []) ⊎ (domain ≡ bytes "duckdns.org")
    → has_prefix owner (bytes "@.") ≡ false
    → Duckdns.new raw domain owner version suffix ≡ ok p
    → build_url_query_hostname p.owner p.domain ≡ owner ++ (bytes "." ++ bytes "duckdns.org")
unfolding Duckdns.new Duckdns.build
duckdns-hostname raw domain owner version suffix p retro plain h =
    let moved = Duckdns.rewritten domain owner in
    let made =
      one_field (string_field (bytes "token") raw) (Duckdns.build moved.0 moved.1 version suffix)
        h in
    let same = unless_refused-ok (Duckdns.validate_settings moved.0 moved.1 made.0) _ p made.1 in
    subst
      (λ q. build_url_query_hostname q.owner q.domain ≡ owner ++ (bytes "." ++ bytes "duckdns.org"))
      same.1 (rewritten-duckdns domain owner retro plain)
