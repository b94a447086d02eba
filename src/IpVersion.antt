-- ===== src/IpVersion.antt =====
-- pkg/publicip/ipversion/ipversion.go
use ddns_updater.Prelude.{
  leb, if◌then◌else◌, Text, bytes, text_eq, text_eq_sound, ◌+◌, ◌≡◌, ◌&&◌, Option, none, some, [],
  ◌∷◌, arith,
}

pub data IpVersion : Type 0 where
  ip4or6 ip4 ip6 : IpVersion

-- IPVersion.String
unfoldable pub to_string : IpVersion → Text
to_string ip4or6 = bytes "ipv4 or ipv6"
to_string ip4 = bytes "ipv4"
to_string ip6 = bytes "ipv6"

-- strings.ToLower on ASCII
unfoldable pub to_lower : Text → Text
to_lower [] = []
to_lower (c ∷ cs) = (if leb b'A' c && leb c b'Z' then c + 32 else c) ∷ to_lower cs

-- Parse; `none` is ErrInvalidIPVersion
unfoldable pub parse : Text → Option IpVersion
parse s =
    let lower = to_lower s in
    if text_eq lower (bytes "ipv4 or ipv6")
    then some ip4or6
    else if text_eq lower (bytes "ipv4")
    then some ip4
    else if text_eq lower (bytes "ipv6")
    then some ip6
    else none

printed : (v : IpVersion) (s : Text) → to_lower s ≡ to_string v → parse s ≡ some v
unfolding parse to_string text_eq bytes
printed ip4or6 s h = rw (h, parse)
printed ip4 s h = rw (h, parse)
printed ip6 s h = rw (h, parse)

-- Printing and parsing a version, in whatever case it is written, gives it back, and what parses
-- is a spelling of the version's name.
pub parse-to_string :
    (v : IpVersion) (s : Text)
    → (to_lower s ≡ to_string v → parse s ≡ some v) × (parse s ≡ some v → to_lower s ≡ to_string v)
unfolding parse to_string
parse-to_string v s =
    let any = text_eq_sound (to_lower s) (bytes "ipv4 or ipv6") in
    let four = text_eq_sound (to_lower s) (bytes "ipv4") in
    let six = text_eq_sound (to_lower s) (bytes "ipv6") in
    (printed v s, λ h. ground (arith, any, four, six))
