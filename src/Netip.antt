-- ===== src/Netip.antt =====
-- The addresses and prefixes of Go's net/netip, as far as the program uses them.
pub mod Parse
pub mod Print
use ddns_updater.Prelude.{
  ◌==◌, if◌then◌else◌, length, take, drop, Text, text_eq, text_eq_refl, text_eq_sound, ℕ, ◌≡◌, refl,
  ap, Bool, true, false, ◌&&◌, Option, none, some, [], ◌∷◌, arith,
}

-- netip.Addr: the zero value, four bytes, or sixteen bytes with a zone (empty for none).
pub data Addr : Type 0 where
  invalid : Addr
  v4 : Text → Addr
  v6 : Text → Text → Addr

-- Addr.IsValid, Addr.Is4, Addr.Is6
abbrev pub is_valid : Addr → Bool
is_valid invalid = false
is_valid (v4 b) = true
is_valid (v6 b z) = true

abbrev pub is4 : Addr → Bool
is4 (v4 b) = true
is4 _ = false

abbrev pub is6 : Addr → Bool
is6 (v6 b z) = true
is6 _ = false

-- a.Compare(b) == 0, which is also a == b as a map key
unfoldable pub addr_eq : Addr → Addr → Bool
addr_eq invalid invalid = true
addr_eq (v4 a) (v4 b) = text_eq a b
addr_eq (v6 a y) (v6 b z) = text_eq a b && text_eq y z
addr_eq _ _ = false

pub addr_eq_refl : (a : Addr) → addr_eq a a ≡ true
unfolding addr_eq
addr_eq_refl invalid = refl
addr_eq_refl (v4 a) = text_eq_refl a
addr_eq_refl (v6 a z) = ground (arith, text_eq_refl a, text_eq_refl z)

pub addr_eq_sound : (a b : Addr) → addr_eq a b ≡ true → a ≡ b
unfolding addr_eq
addr_eq_sound invalid invalid h = refl
addr_eq_sound (v4 a) (v4 b) h = ap v4 (text_eq_sound a b h)
addr_eq_sound (v6 a y) (v6 b z) h = ground (arith, text_eq_sound a b, text_eq_sound y z)
addr_eq_sound _ _ h = ground arith

-- Addr.AsSlice
abbrev pub as_slice : Addr → Text
as_slice invalid = []
as_slice (v4 b) = b
as_slice (v6 b z) = b

-- AddrFromSlice; `none` for a length that is not 4 or 16
unfoldable pub addr_from_slice : Text → Option Addr
addr_from_slice b =
    if length b == 4 then some (v4 b) else if length b == 16 then some (v6 b []) else none

-- Addr.Unmap: an IPv4 address behind the prefix ::ffff:0:0/96 becomes one
abbrev pub mapped_prefix : Text
mapped_prefix = 0 ∷ 0 ∷ 0 ∷ 0 ∷ 0 ∷ 0 ∷ 0 ∷ 0 ∷ 0 ∷ 0 ∷ 255 ∷ 255 ∷ []

unfoldable pub unmap : Addr → Addr
unmap invalid = invalid
unmap (v4 b) = v4 b
unmap (v6 b z) = if text_eq (take 12 b) mapped_prefix then v4 (drop 12 b) else v6 b z

-- netip.Prefix: the zero value, or an address with a number of bits
pub data Prefix : Type 0 where
  no_prefix : Prefix
  prefix : Addr → ℕ → Prefix

abbrev pub prefix_is_valid : Prefix → Bool
prefix_is_valid no_prefix = false
prefix_is_valid (prefix a n) = true

-- What every value of these types satisfies: the lengths, and the range of the bits.
abbrev pub IsAddr : Addr → Type 0
IsAddr invalid = Unit
IsAddr (v4 b) = length b ≡ 4
IsAddr (v6 b z) = length b ≡ 16
