-- ===== src/Suffix/Merge.antt =====
-- ipv6WithSuffix of internal/update/ipv6.go on well-formed addresses.
use ddns_updater.Prelude.{
  ltb, lt→ltb, length, take, drop, replicate, length-append, length-take, length-drop, Text, bytes,
  trim_prefix, ℕ, zero, suc, ◌-◌, ◌*◌, ◌/◌, ◌≤◌, ◌≡◌, refl, ap, ◌∙◌, true, none, some, [], ◌++◌,
  arith,
}
use native.Mathlib.Nat.{sub-zero, zero-sub, suc-sub-suc}
use ddns_updater.Result.{ok}
use ddns_updater.Netip.{v4, v6, addr_from_slice, Prefix, prefix}
use ddns_updater.Suffix.{merge, ipv6_with_suffix, parse_uint8, make_ipv6_suffix}

merge_lem :
    (public suffix : Text) (n : ℕ)
    → length public ≡ 16
    → length suffix ≡ 16
    → n ≤ 16
    → merge public suffix n ≡ some (v6 (take n public ++ drop n suffix) [])
unfolding merge addr_from_slice
merge_lem public suffix n p q h =
    let front = length-take n public (omega arith) in
    let back = length-drop n suffix in
    let whole = length-append (take n public) (drop n suffix) in
    let size : length (take n public ++ drop n suffix) ≡ 16 = omega arith in
    rw (p, q, size) (ground arith)

-- For an IPv6 address and an IPv6 suffix of `bits` bits, at most 128, the code returns: the address's
-- first (128 - bits) / 8 bytes, rounded down, then the suffix's bytes from there on, with no zone.
pub ipv6_with_suffix-v6 :
    (public zone suffix suffix_zone : Text) (bits : ℕ)
    → length public ≡ 16
    → length suffix ≡ 16
    → bits ≤ 128
    → ipv6_with_suffix (v6 public zone) (prefix (v6 suffix suffix_zone) bits)
      ≡ some (v6 (take ((128 - bits) / 8) public ++ drop ((128 - bits) / 8) suffix) [])
unfolding ipv6_with_suffix
ipv6_with_suffix-v6 public zone suffix suffix_zone bits p q h =
    merge_lem public suffix ((128 - bits) / 8) p q (omega arith)

-- A valid IPv4 prefix as the suffix of an IPv6 address makes the code panic, whatever the two are.
pub ipv6_with_suffix-v4_panics :
    (public zone suffix : Text) (bits : ℕ)
    → length suffix ≡ 4
    → bits ≤ 32
    → ipv6_with_suffix (v6 public zone) (prefix (v4 suffix) bits) ≡ none
unfolding ipv6_with_suffix
ipv6_with_suffix-v4_panics public zone suffix bits q h =
    let short : ltb (length suffix) ((128 - bits) / 8) ≡ true =
      rw q (lt→ltb 4 ((128 - bits) / 8) (omega arith)) in
    rw short (ground arith)

drop-replicate : (n k : ℕ) → drop n (replicate {A = ℕ} k 0) ≡ replicate (k - n) 0
drop-replicate zero k = rw sub-zero
drop-replicate (suc n) zero = rw zero-sub
drop-replicate (suc n) (suc k) = rw suc-sub-suc (drop-replicate n k)

kept :
    (public : Text) (n : ℕ)
    → n ≤ 16
    → take ((128 - (128 - n * 8)) / 8) public ++ drop ((128 - (128 - n * 8)) / 8) (replicate 16 0)
      ≡ take n public ++ replicate (16 - n) 0
kept public n h =
    let network : (128 - (128 - n * 8)) / 8 ≡ n = omega arith in
    rw network (ap (λ t. take n public ++ t) (drop-replicate n 16))

-- A public IPv6 address keeps its network bits under IPV6_PREFIX if the number of bits is a
-- multiple of 8, and the host bits become zero.
pub retro_suffix_keeps :
    (bits_string public zone : Text) (n : ℕ)
    → length public ≡ 16
    → n ≤ 16
    → parse_uint8 (trim_prefix bits_string (bytes "/")) ≡ some (n * 8)
    → (suffix : Prefix) × (make_ipv6_suffix bits_string ≡ ok suffix)
      × (ipv6_with_suffix (v6 public zone) suffix
          ≡ some (v6 (take n public ++ replicate (16 - n) 0) []))
unfolding make_ipv6_suffix
retro_suffix_keeps bits_string public zone n p h e = (
  prefix (v6 (replicate 16 0) []) (128 - n * 8),
  rw (e, make_ipv6_suffix) (ground arith),
  ipv6_with_suffix-v6 public zone (replicate 16 0) [] (128 - n * 8) p refl (omega arith)
      ∙ ap (λ t. some (v6 t [])) (kept public n h),
)
