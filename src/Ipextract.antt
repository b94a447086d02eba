-- ===== src/Ipextract.antt =====
-- pkg/ipextract/ipextract.go: the addresses that stand in a text.
pub mod Fields
pub mod Kinds
use ddns_updater.Prelude.{
  ℕ, suc, zero, Bool, true, false, ◌||◌, Option, none, some, List, [], ◌∷◌, ◌++◌, Text, bytes,
  length, ◌==◌, if◌then◌else◌,
}
use ddns_updater.Netip.{Addr, addr_eq}
use ddns_updater.Netip.Parse.{parse_addr}

-- strings.ContainsRune(alphabet, rune(text[i])): a byte of 128 or more is in neither alphabet.
unfoldable pub contains_byte : Text → ℕ → Bool
contains_byte [] c = false
contains_byte (a ∷ alphabet) c = c == a || contains_byte alphabet c

-- The inner loop: text[start:end], and the text behind the byte that ended it, if one did.
unfoldable pub next_field : Text → Text → Text × Option Text
next_field alphabet [] = ([], none)
next_field alphabet (c ∷ text) =
    if contains_byte alphabet c
    then (c ∷ (next_field alphabet text).0, (next_field alphabet text).1)
    else ([], some text)

-- A lookup in `addressesSeen`, whose keys are the addresses appended so far.
unfoldable pub seen : Addr → List Addr → Bool
seen a [] = false
seen a (b ∷ addresses) = addr_eq a b || seen a addresses

-- A valid address that was not seen is appended.
unfoldable pub append_address : Option Addr → List Addr → List Addr
append_address none addresses = addresses
append_address (some a) addresses = if seen a addresses then addresses else addresses ++ a ∷ []

-- The outer loop; `none` means that the fuel ran out.
unfoldable pub extract_loop : ℕ → Text → Text → List Addr → Option (List Addr)
extract_loop zero alphabet text addresses = none
extract_loop (suc fuel) alphabet text addresses =
    let field = next_field alphabet text in
    let addresses' = append_address (parse_addr field.0) addresses in
    elim field.1 [ none ↦ some addresses' | some rest ↦ extract_loop fuel alphabet rest addresses' ]

abbrev or_nil : Option (List Addr) → List Addr
or_nil none = []
or_nil (some addresses) = addresses

-- extract: each turn of the outer loop but the last passes a byte, so this fuel is enough
unfoldable pub extract : Text → Text → List Addr
extract text alphabet = or_nil (extract_loop (suc (length text)) alphabet text [])

abbrev pub ipv4_alphabet : Text
ipv4_alphabet = bytes "0123456789."

abbrev pub ipv6_alphabet : Text
ipv6_alphabet = bytes "0123456789abcdefABCDEF:"

-- IPv4 and IPv6
unfoldable pub ipv4 : Text → List Addr
ipv4 text = extract text ipv4_alphabet

unfoldable pub ipv6 : Text → List Addr
ipv6 text = extract text ipv6_alphabet
