-- ===== src/Domain.antt =====
-- internal/provider/utils/domain.go: domain names and their validation. Texts are bytes; a byte of
-- 128 or more begins a rune that the loop refuses with the same error, so the loop goes by bytes.
pub mod Labels
use ddns_updater.Prelude.{
  ℕ, suc, zero, ◌+◌, ◌-◌, Bool, true, false, not, ◌&&◌, ◌||◌, Option, none, some, List, [], ◌∷◌,
  ◌++◌, Text, bytes, text_eq, replace_byte, length, ltb, leb, ◌==◌, if◌then◌else◌,
}

-- BuildDomainName
unfoldable pub build_domain_name : Text → Text → Text
build_domain_name owner domain =
    if text_eq owner (bytes "@")
    then domain
    else replace_byte b'*' (bytes "any") owner ++ bytes "." ++ domain

-- BuildURLQueryHostname
unfoldable pub build_url_query_hostname : Text → Text → Text
build_url_query_hostname owner domain =
    if text_eq owner (bytes "@") then domain else owner ++ bytes "." ++ domain

pub data DomainError : Type 0 where
  domain_not_set domain_too_long label_too_long invalid_character tld_missing : DomainError

-- domainString[i]; the loop reads only below the length
abbrev pub byte_at : Text → ℕ → ℕ
byte_at [] i = 0
byte_at (c ∷ cs) zero = c
byte_at (c ∷ cs) (suc i) = byte_at cs i

unfoldable pub is_label_character : ℕ → Bool
is_label_character c = not (
    (ltb c b'a' || ltb b'z' c)
    && (ltb c b'0' || ltb b'9' c)
    && not (c == b'-')
    && (ltb c b'A' || ltb b'Z' c))

-- The `switch` at a dot: the label that ends at `i`.
unfoldable pub check_label : Text → ℕ → ℕ → Option DomainError
check_label domain i start =
    if i == start
    then some invalid_character
    else if ltb 63 (i - start)
    then some label_too_long
    else if byte_at domain start == b'-'
    then some invalid_character
    else if byte_at domain (i - 1) == b'-'
    then some invalid_character
    else none

-- The `switch` after the loop: the top level domain.
unfoldable pub check_tld : Text → ℕ → Option DomainError
check_tld domain start =
    if start == length domain
    then some tld_missing
    else if ltb 63 (length domain - start)
    then some label_too_long
    else if byte_at domain start == b'-'
    then some invalid_character
    else if byte_at domain (length domain - 1) == b'-'
    then some invalid_character
    else if leb b'0' (byte_at domain start) && leb (byte_at domain start) b'9'
    then some invalid_character
    else none

-- The loop at offset `i`, with the text from there on, and what follows it.
unfoldable pub check_from : Text → Text → ℕ → ℕ → Option DomainError
check_from domain [] i start = check_tld domain start
check_from domain (c ∷ rest) i start =
    if c == b'.'
    then elim (check_label domain i start) [
      | some e ↦ some e
      | none ↦ check_from domain rest (suc i) (suc i)
    ]
    else elim (is_label_character c) [
      | true ↦ check_from domain rest (suc i) start
      | false ↦ some invalid_character
    ]

-- CheckDomain
unfoldable pub check_domain : Text → Option DomainError
check_domain domain =
    if length domain == 0
    then some domain_not_set
    else if ltb 255 (length domain)
    then some domain_too_long
    else check_from domain domain 0 0
