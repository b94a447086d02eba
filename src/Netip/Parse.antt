-- ===== src/Netip/Parse.antt =====
-- ParseAddr of net/netip.
use ddns_updater.Prelude.{
  ltb, leb, ◌==◌, if◌then◌else◌, length, take, drop, replicate, Text, bytes, is_empty, split, ℕ,
  zero, suc, ◌+◌, ◌-◌, ◌*◌, ◌/◌, ◌%◌, ◌≡◌, refl, Bool, true, false, ◌&&◌, ◌||◌, Option, none, some,
  List, [], ◌∷◌, ◌++◌,
}
use ddns_updater.Netip.{Addr, v4, v6}

unfoldable pub is_digit : ℕ → Bool
is_digit c = leb b'0' c && leb c b'9'

octet_digits : ℕ → Text → Option ℕ
octet_digits acc [] = some acc
octet_digits acc (c ∷ cs) =
    if is_digit c && ltb (acc * 10 + (c - b'0')) 256
    then octet_digits (acc * 10 + (c - b'0')) cs
    else none

-- A field has a digit, no leading zero, and is at most 255.
octet : Text → Option ℕ
unfolding octet_digits is_digit
octet [] = none
octet (c ∷ []) = octet_digits 0 (c ∷ [])
octet (c ∷ d ∷ cs) = if c == b'0' then none else octet_digits 0 (c ∷ d ∷ cs)

four : Option ℕ → Option ℕ → Option ℕ → Option ℕ → Option Text
four (some a) (some b) (some c) (some d) = some (a ∷ b ∷ c ∷ d ∷ [])
four _ _ _ _ = none

four_fields : List Text → Option Text
unfolding octet four
four_fields (a ∷ b ∷ c ∷ d ∷ []) = four (octet a) (octet b) (octet c) (octet d)
four_fields _ = none

unfoldable pub parse_fields : Text → Option Text
unfolding four_fields
parse_fields s = four_fields (split b'.' s)

hex_value : ℕ → Option ℕ
unfolding is_digit
hex_value c =
    if is_digit c
    then some (c - b'0')
    else if leb b'a' c && leb c b'f'
    then some (c - b'a' + 10)
    else if leb b'A' c && leb c b'F'
    then some (c - b'A' + 10)
    else none

-- The hexadecimal digits at the front: their number, their value and the rest.
hex_front : ℕ → ℕ → Text → ℕ × ℕ × Text
unfolding hex_value
hex_front n acc [] = (n, acc, [])
hex_front n acc (c ∷ cs) = elim (hex_value c) [
  | none ↦ (n, acc, c ∷ cs)
  | some d ↦ hex_front (suc n) (acc * 16 + d) cs
]

abbrev first_is : ℕ → Text → Bool
first_is c [] = false
first_is c (x ∷ xs) = x == c

-- The bytes read, and the place of `::`.
abbrev Groups : Type 0
Groups = Text × Option ℕ

-- After a group: the end, `:` with more behind it, or the one `::`.
separator : Text → ℕ → Option ℕ → Option (Text × Option ℕ × Bool)
separator [] n ellipsis = some ([], ellipsis, true)
separator (c ∷ []) n ellipsis = none
separator (c ∷ d ∷ cs) n ellipsis =
    if c == b':'
    then (if d == b':'
        then elim ellipsis [ some k ↦ none | none ↦ some (cs, some n, is_empty cs) ]
        else some (d ∷ cs, ellipsis, false))
    else none

embedded : Text → Text → Option ℕ → Option Groups
unfolding parse_fields
embedded s done ellipsis = if ltb 12 (length done) then none else elim (parse_fields s) [
  | none ↦ none
  | some b ↦ elim ellipsis [
    | none ↦ if length done == 12 then some (done ++ b, none) else none
    | some k ↦ some (done ++ b, some k)
  ]
]

-- At most eight groups are read, so fuel 8 is never used up with text left that could be valid.
read_groups : ℕ → Text → Text → Option ℕ → Option Groups
unfolding hex_front separator embedded
read_groups zero s done ellipsis = none
read_groups (suc fuel) s done ellipsis =
    let front = hex_front 0 0 s in
    if front.0 == 0 || ltb 4 front.0
    then none
    else if first_is b'.' front.2
    then embedded s done ellipsis
    else (let here = done ++ (front.1 / 256) ∷ (front.1 % 256) ∷ [] in
        elim (separator front.2 (length here) ellipsis) [
          | none ↦ none
          | some (rest, place, last) ↦
              if last then some (here, place) else read_groups fuel rest here place
        ])

-- `::` stands for at least one group of zeros.
expand : Option Groups → Option Text
expand none = none
expand (some (b, none)) = if length b == 16 then some b else none
expand (some (b, some k)) =
    if ltb (length b) 16 then some (take k b ++ replicate (16 - length b) 0 ++ drop k b) else none

unfoldable pub parse_groups : Text → Option Text
unfolding read_groups expand
parse_groups (c ∷ d ∷ cs) =
    if c == b':' && d == b':'
    then (if is_empty cs then some (replicate 16 0) else expand (read_groups 8 cs [] (some 0)))
    else expand (read_groups 8 (c ∷ d ∷ cs) [] none)
parse_groups s = expand (read_groups 8 s [] none)

-- The zone is what stands behind the first `%`.
unfoldable pub cut_zone : Text → Text × Option Text
cut_zone [] = ([], none)
cut_zone (c ∷ cs) = if c == b'%' then ([], some cs) else (c ∷ (cut_zone cs).0, (cut_zone cs).1)

unfoldable pub zoned : Text → Option Text → Option Addr
unfolding parse_groups
zoned s none = elim (parse_groups s) [ none ↦ none | some b ↦ some (v6 b []) ]
zoned s (some []) = none
zoned s (some (z ∷ zs)) = elim (parse_groups s) [ none ↦ none | some b ↦ some (v6 b (z ∷ zs)) ]

-- The first of `.`, `:` and `%` decides the kind.
unfoldable pub dispatch : Text → Text → Option Addr
dispatch s [] = none
dispatch s (c ∷ cs) =
    if c == b'.'
    then elim (parse_fields s) [ none ↦ none | some b ↦ some (v4 b) ]
    else if c == b':'
    then (let z = cut_zone s in zoned z.0 z.1)
    else if c == b'%'
    then none
    else dispatch s cs

unfoldable pub parse_addr : Text → Option Addr
unfolding dispatch
parse_addr s = dispatch s s

parse_dotted : parse_addr (bytes "192.168.1.20") ≡ some (v4 (192 ∷ 168 ∷ 1 ∷ 20 ∷ []))
unfolding parse_addr parse_fields bytes split
parse_dotted = refl

parse_leading_zero : parse_addr (bytes "1.02.3.4") ≡ none
unfolding parse_addr parse_fields bytes split
parse_leading_zero = refl

parse_compressed :
    parse_addr (bytes "2001:db8::1")
    ≡ some (v6 (32 ∷ 1 ∷ 13 ∷ 184 ∷ 0 ∷ 0 ∷ 0 ∷ 0 ∷ 0 ∷ 0 ∷ 0 ∷ 0 ∷ 0 ∷ 0 ∷ 0 ∷ 1 ∷ []) [])
unfolding parse_addr zoned cut_zone parse_groups bytes
parse_compressed = refl
