-- ===== src/Tests/Addresses.antt =====
-- Addresses in texts, and the IPv6 suffix (pkg/ipextract, internal/update/ipv6.go).
use ddns_updater.Prelude.{
  take, drop, replicate, Text, bytes, text_eq, trim_prefix, split, ◌-◌, ◌*◌, ◌/◌, ◌≡◌, refl, true,
  none, some, [], ◌∷◌, ◌++◌, arith,
}
use ddns_updater.Netip.{v4, v6, is4, is6, addr_eq, prefix}
use ddns_updater.Netip.Parse.{parse_addr, parse_fields}
use ddns_updater.Ipextract.{
  extract, extract_loop, next_field, append_address, contains_byte, ipv4, ipv6, ipv4_alphabet, seen,
}
use ddns_updater.Ipextract.Fields.{fields, valid_addresses, first_occurrences, extract-fields}
use ddns_updater.Ipextract.Kinds.{all_addresses, extract_kinds}
use ddns_updater.Suffix.{ipv6_with_suffix, parse_uint8}
use ddns_updater.Suffix.Merge.{ipv6_with_suffix-v6, ipv6_with_suffix-v4_panics}

finds_two :
    ipv4 (bytes "from 1.2.3.4, not 1.2.3.400: 5.6.7.8 1.2.3.4")
    ≡ v4 (1 ∷ 2 ∷ 3 ∷ 4 ∷ []) ∷ v4 (5 ∷ 6 ∷ 7 ∷ 8 ∷ []) ∷ []
unfolding ipv4 extract extract_loop next_field append_address contains_byte seen addr_eq text_eq
    parse_addr parse_fields split bytes
finds_two = refl

extract-fields_example :
    extract (bytes "a 1.2.3.4") ipv4_alphabet
    ≡ first_occurrences [] (valid_addresses (fields ipv4_alphabet (bytes "a 1.2.3.4")))
extract-fields_example = extract-fields (bytes "a 1.2.3.4") ipv4_alphabet

extract_kinds_example :
    (all_addresses is4 (ipv4 (bytes "1.2.3.4 ::1")) ≡ true)
    × (all_addresses is6 (ipv6 (bytes "1.2.3.4 ::1")) ≡ true)
extract_kinds_example = extract_kinds (bytes "1.2.3.4 ::1")

abbrev public : Text
public = 32 ∷ 1 ∷ 13 ∷ 184 ∷ 1 ∷ 2 ∷ 3 ∷ 4 ∷ 5 ∷ 6 ∷ 7 ∷ 8 ∷ 9 ∷ 10 ∷ 11 ∷ 12 ∷ []

ipv6_with_suffix-v6_example :
    ipv6_with_suffix (v6 public []) (prefix (v6 (replicate 16 7) []) 64)
    ≡ some (v6 (take ((128 - 64) / 8) public ++ drop ((128 - 64) / 8) (replicate 16 7)) [])
ipv6_with_suffix-v6_example =
    ipv6_with_suffix-v6 public [] (replicate 16 7) [] 64 refl refl (omega arith)

ipv6_with_suffix-v4_panics_example :
    ipv6_with_suffix (v6 public []) (prefix (v4 (10 ∷ 0 ∷ 0 ∷ 1 ∷ [])) 24) ≡ none
ipv6_with_suffix-v4_panics_example =
    ipv6_with_suffix-v4_panics public [] (10 ∷ 0 ∷ 0 ∷ 1 ∷ []) 24 refl (omega arith)

parses_56 : parse_uint8 (trim_prefix (bytes "/56") (bytes "/")) ≡ some (7 * 8)
unfolding parse_uint8 trim_prefix bytes
parses_56 = refl
