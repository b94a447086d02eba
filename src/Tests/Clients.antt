-- ===== src/Tests/Clients.antt =====
-- The clients of the DNS services (internal/provider).
use ddns_updater.Models.{Record, new_record, success, get_current_ip}
use ddns_updater.Domain.{build_domain_name, build_url_query_hostname}
use ddns_updater.Provider.Etld.{move_label}
use ddns_updater.Provider.Capitals.{has_upper}
use ddns_updater.Providers.Duckdns
use ddns_updater.Providers.Duckdns.{Duckdns}
use ddns_updater.Netip.Print.{addr_string}
use ddns_updater.Providers.Custom
use ddns_updater.Providers.Custom.{Custom}
use ddns_updater.Providers.Custom.Query.{update-stale}
use ddns_updater.Providers.Strato
use ddns_updater.Providers.Strato.{Strato}
use ddns_updater.Providers.Goip
use ddns_updater.Providers.Goip.{Goip}
use ddns_updater.Providers.Rewriting.{duckdns-hostname}
use ddns_updater.Providers.Capitals.{strato-badauth, goip-capital}
use ddns_updater.Providers.Recorded.{as_answer, update-asked}
use ddns_updater.Update.World.{Env}
use ddns_updater.Update.Updater.{update}
use ddns_updater.Update.Updater.Final.{final, update-final}
use ddns_updater.Tests.Storing.{one_record}
use ddns_updater.Tests.Updating.{env, world}
use ddns_updater.Prelude.{
  get_elem?, Text, bytes, text_eq, is_empty, has_prefix, contains, has_suffix, split, join,
  trim_left, trim_right, trim_space, ◌≡◌, refl, ap, ◌≢◌, inl, true, false, none, some, [], ◌∷◌,
  ◌++◌, arith,
}
use ddns_updater.Result.{ok, err}
use ddns_updater.IpVersion.{ip4or6, ip4, to_lower}
use ddns_updater.Netip.{v6, Addr, v4, no_prefix, addr_eq}
use ddns_updater.Provider.{
  Values, get_value, UpdateError, auth, unknown_response, count_byte, Client, Object, Provider,
  replied, string, string_field, methods, as_string, read_reply, after_domain, clean_body,
  expect_first, extract_as4, unless_refused,
}
use ddns_updater.Domain.{check_domain, check_from, check_label, check_tld, is_label_character}
use ddns_updater.Ipextract.{
  ipv4, extract, extract_loop, next_field, contains_byte, append_address, seen,
}
use ddns_updater.Netip.Parse.{parse_addr, dispatch, parse_fields}
use ddns_updater.Provider.Laws.{Confirmed, Accepted}
use ddns_updater.Providers.Noip
use ddns_updater.Provider.{provider_unknown}
use ddns_updater.Providers.Registry.{Given, new, no_ip}
use ddns_updater.Providers.Contract.{new-Confirms}
use ddns_updater.Providers.Acceptance.{new-Accepted}

abbrev raw : Object
raw = (bytes "username", string (bytes "me")) ∷ (bytes "password", string (bytes "pw")) ∷ []

abbrev noip_client : Provider
noip_client = Noip.provider (record {
  domain = bytes "ab.net";
  owner = bytes "@";
  ip_version = ip4;
  ipv6_suffix = no_prefix;
  username = bytes "me";
  password = bytes "pw";
})

abbrev pub address : Addr
address = v4 (1 ∷ 2 ∷ 3 ∷ 4 ∷ [])

-- A service that confirms the address.
abbrev pub confirms : Client
confirms n request = replied 200 (bytes "Good 1.2.3.4\n")

-- Nothing is taken as given.
abbrev given : Given
given = record {
  decode_listed = λ b. none;
  decode_created = λ b. none;
  decode_updated = λ b. none;
  decode_records = λ b. none;
  decode_record = λ b. none;
  decode_message = λ b. none;
  new_other = λ o raw domain owner version suffix. err provider_unknown;
}

new-noip : new given no_ip raw (bytes "ab.net") (bytes "@") ip4 no_prefix ≡ ok noip_client
unfolding new Noip.new Noip.build Noip.validate_settings string_field as_string after_domain
    check_domain check_from check_label check_tld is_label_character unless_refused text_eq bytes
new-noip = refl

update-noip : noip_client.update confirms address ≡ ok address
unfolding Noip.provider methods Noip.update read_reply clean_body trim_space trim_left trim_right
    to_lower Noip.classify Noip.classify_rest contains has_prefix expect_first extract_as4 ipv4
    extract extract_loop next_field contains_byte append_address seen addr_eq parse_addr dispatch
    parse_fields text_eq bytes split
update-noip = refl

new-Confirms_example : Confirmed true true noip_client.update confirms address address
new-Confirms_example =
    new-Confirms given no_ip raw (bytes "ab.net") (bytes "@") ip4 no_prefix noip_client refl
      new-noip confirms address address update-noip

new-Accepted_example : Accepted false (bytes "ab.net") ip4 no_prefix noip_client
new-Accepted_example =
    new-Accepted given no_ip raw (bytes "ab.net") (bytes "@") ip4 no_prefix noip_client refl refl
      new-noip

-- The updater with this client behind the first record.
abbrev text : UpdateError → Text
text e = bytes "refused"

abbrev wired : Env
wired = record env { provider_update = λ q ip n. as_answer text (noip_client.update confirms ip) }

abbrev updated : Record
updated =
    final one_record address 7200000000000 7200000000003
      (as_answer text (noip_client.update confirms address))

stored : get_elem? (update wired 0 address world).1.db.records 0 ≡ some updated
unfolding new_record
stored = ap (λ l. get_elem? l 0) (update-final wired 0 address one_record world (omega arith) refl)

done : updated.status ≡ success
unfolding final
done = rw update-noip refl

update-asked_example : get_current_ip updated.history ≡ address
unfolding new_record
update-asked_example =
    update-asked given no_ip raw (bytes "ab.net") (bytes "@") ip4 no_prefix noip_client text
      (λ tick. confirms) wired 0 address one_record updated world refl new-noip (λ tick. refl)
      (omega arith) refl stored done

-- A token of duckdns, and settings without a domain.
abbrev token_raw : Object
token_raw = (bytes "token", string (bytes "01234567-89ab-cdef-0123-456789abcdef")) ∷ []

abbrev duckdns_client : Duckdns
duckdns_client = record {
  domain = bytes "ab.duckdns.org";
  owner = bytes "www";
  ip_version = ip4;
  ipv6_suffix = no_prefix;
  token = bytes "01234567-89ab-cdef-0123-456789abcdef";
}

new-duckdns : Duckdns.new token_raw [] (bytes "www.ab") ip4 no_prefix ≡ ok duckdns_client
unfolding Duckdns.new Duckdns.build Duckdns.validate_settings Duckdns.rewritten Duckdns.is_subdomain
    Duckdns.matches_hex string_field as_string unless_refused move_label split join has_suffix
    count_byte text_eq bytes
new-duckdns = refl

plain : has_prefix (bytes "www.ab") (bytes "@.") ≡ false
unfolding has_prefix bytes
plain = refl

duckdns-hostname_example :
    build_url_query_hostname duckdns_client.owner duckdns_client.domain
    ≡ bytes "www.ab" ++ (bytes "." ++ bytes "duckdns.org")
duckdns-hostname_example =
    duckdns-hostname token_raw [] (bytes "www.ab") ip4 no_prefix duckdns_client (inl refl) plain
      new-duckdns

abbrev strato_client : Strato
strato_client = record {
  domain = bytes "ab.net";
  owner = bytes "@";
  ip_version = ip4;
  ipv6_suffix = no_prefix;
  password = bytes "pw";
}

abbrev refuses : Client
refuses n request = replied 200 (bytes "badauth")

cleaned : clean_body (bytes "badauth") ≡ bytes "badauth"
unfolding clean_body trim_space trim_left trim_right to_lower bytes
cleaned = refl

strato-badauth_example :
    (Strato.update strato_client refuses address ≡ err unknown_response)
    × (Strato.update strato_client confirms address ≢ err auth)
strato-badauth_example =
    strato-badauth strato_client refuses confirms address (bytes "badauth") refl cleaned

abbrev goip_client : Goip
goip_client = record {
  domain = bytes "Ab.goip.de";
  owner = bytes "@";
  ip_version = ip4;
  ipv6_suffix = no_prefix;
  username = bytes "me";
  password = bytes "pw";
}

capital : has_upper (build_domain_name goip_client.owner goip_client.domain) ≡ true
unfolding build_domain_name text_eq bytes
capital = refl

goip-capital_example : Goip.update goip_client confirms address ≢ ok address
goip-capital_example = goip-capital goip_client confirms address address capital

abbrev custom_client : Custom
custom_client = record {
  domain = bytes "ab.net";
  owner = bytes "@";
  ip_version = ip4or6;
  ipv6_suffix = no_prefix;
  url = record {
    scheme = bytes "https";
    user = none;
    host = bytes "service.net";
    path = bytes "/update";
    query = some ((bytes "user", bytes "me") ∷ []);
  };
  ipv4_key = bytes "v4";
  ipv6_key = bytes "v6";
  success_regex = bytes "ok";
}

abbrev address6 : Addr
address6 = v6 (32 ∷ 1 ∷ 0 ∷ 0 ∷ 0 ∷ 0 ∷ 0 ∷ 0 ∷ 0 ∷ 0 ∷ 0 ∷ 0 ∷ 0 ∷ 0 ∷ 0 ∷ 1 ∷ []) []

filled : (is_empty (bytes "v4") ≡ false) × (is_empty (bytes "v6") ≡ false)
unfolding bytes
filled = (refl, refl)

keys_differ : text_eq (bytes "v6") (bytes "v4") ≡ false
unfolding text_eq bytes
keys_differ = refl

update-stale_example :
    let q = (Custom.update (λ e s. true) custom_client confirms address).1 in
    (sent : Values) × ((Custom.update (λ e s. true) q confirms address6).0
      ≡ Custom.answer (λ e s. true) q address6 (confirms 0 (Custom.request q sent)))
    × (get_value (bytes "v6") sent ≡ some (addr_string address6))
    × (get_value (bytes "v4") sent ≡ some (addr_string address))
update-stale_example =
    update-stale (λ e s. true) custom_client confirms confirms address address6
      ((bytes "user", bytes "me") ∷ []) refl filled.0 filled.1 keys_differ
