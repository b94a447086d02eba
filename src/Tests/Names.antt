-- ===== src/Tests/Names.antt =====
-- Domain names and IP versions (internal/provider/utils, pkg/publicip/ipversion).
use ddns_updater.Prelude.{bytes, text_eq, replace_byte, ◌≡◌, refl, none, some}
use ddns_updater.Domain.{
  check_domain, build_domain_name, tld_missing, invalid_character, check_from, check_label,
  check_tld, is_label_character,
}
use ddns_updater.Domain.Labels.{is_domain, is_none, check_domain-is_domain}

accepts : check_domain (bytes "my-host.example.com") ≡ none
unfolding check_domain check_from check_label check_tld is_label_character bytes
accepts = refl

refuses_trailing_dot : check_domain (bytes "example.com.") ≡ some tld_missing
unfolding check_domain check_from check_label check_tld is_label_character bytes
refuses_trailing_dot = refl

refuses_hyphen : check_domain (bytes "-a.com") ≡ some invalid_character
unfolding check_domain check_from check_label check_tld is_label_character bytes
refuses_hyphen = refl

wildcard : build_domain_name (bytes "*") (bytes "a.com") ≡ bytes "any.a.com"
unfolding build_domain_name text_eq replace_byte bytes
wildcard = refl

check_domain-is_domain_example :
    is_none (check_domain (bytes "example.com")) ≡ is_domain (bytes "example.com")
check_domain-is_domain_example = check_domain-is_domain (bytes "example.com")
