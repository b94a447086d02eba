-- ===== src/Suffix.antt =====
-- The IPv6 suffix: internal/update/ipv6.go and internal/params/retro.go.
pub mod Merge
use ddns_updater.Prelude.{
  ltb, if◌then◌else◌, length, take, drop, replicate, Text, bytes, is_empty, trim_prefix, ℕ, ◌+◌,
  ◌-◌, ◌*◌, ◌/◌, not, ◌&&◌, ◌||◌, Option, none, some, [], ◌∷◌, ◌++◌,
}
use ddns_updater.Result.{Result, ok, err, panic}
use ddns_updater.Netip.{
  Addr, v6, is_valid, is6, as_slice, addr_from_slice, Prefix, no_prefix, prefix, prefix_is_valid,
}
use ddns_updater.Netip.Parse.{is_digit}

-- publicIP.AsSlice()[:n] and suffix[n:], which panic out of range
unfoldable pub merge : Text → Text → ℕ → Option Addr
merge public suffix n =
    if ltb (length public) n || ltb (length suffix) n
    then none
    else addr_from_slice (take n public ++ drop n suffix)

unfoldable pub merge_prefix : Addr → Prefix → Option Addr
unfolding merge
merge_prefix public_ip no_prefix = some public_ip
merge_prefix public_ip (prefix suffix bits) =
    merge (as_slice public_ip) (as_slice suffix) ((128 - bits) / 8)

-- ipv6WithSuffix; `none` is a panic
unfoldable pub ipv6_with_suffix : Addr → Prefix → Option Addr
unfolding merge_prefix
ipv6_with_suffix public_ip suffix =
    if not (is_valid public_ip) || not (is6 public_ip) || not (prefix_is_valid suffix)
    then some public_ip
    else merge_prefix public_ip suffix

pub data PrefixError : Type 0 where
  not_a_uint8 too_many_bits : PrefixError

-- strconv.ParseUint(s, 10, 8); `none` is its error
uint8_digits : ℕ → Text → Option ℕ
unfolding is_digit
uint8_digits acc [] = some acc
uint8_digits acc (c ∷ cs) =
    if is_digit c && ltb (acc * 10 + (c - b'0')) 256
    then uint8_digits (acc * 10 + (c - b'0')) cs
    else none

unfoldable pub parse_uint8 : Text → Option ℕ
unfolding uint8_digits
parse_uint8 s = if is_empty s then none else uint8_digits 0 s

-- makeIPv6Suffix
unfoldable pub make_ipv6_suffix : Text → Result PrefixError Prefix
make_ipv6_suffix bits_string = elim (parse_uint8 (trim_prefix bits_string (bytes "/"))) [
  | none ↦ err not_a_uint8
  | some bits ↦
      if ltb 128 bits then err too_many_bits else ok (prefix (v6 (replicate 16 0) []) (128 - bits))
]

-- getRetroIPv6Suffix, given the value of the environment variable IPV6_PREFIX
unfoldable pub get_retro_ipv6_suffix : Text → Result PrefixError Prefix
get_retro_ipv6_suffix bits_string =
    if is_empty bits_string then ok no_prefix else make_ipv6_suffix bits_string
