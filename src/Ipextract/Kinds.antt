-- ===== src/Ipextract/Kinds.antt =====
-- The kinds of the addresses that pkg/ipextract/ipextract.go extracts: the alphabets leave out the
-- bytes by which ParseAddr chooses the other kind.
use ddns_updater.Prelude.{
  ◌==◌, Bool-cases, Text, bytes, ℕ, ◌≡◌, refl, inl, inr, Bool, true, false, ◌&&◌, Option, none,
  some, List, [], ◌∷◌, ◌++◌, arith,
}
use ddns_updater.Netip.{Addr, is4, is6}
use ddns_updater.Netip.Parse.{parse_addr, dispatch, cut_zone, zoned}
use ddns_updater.Ipextract.{contains_byte, seen, extract, ipv4, ipv6, ipv4_alphabet, ipv6_alphabet}
use ddns_updater.Ipextract.Fields.{
  add_byte, fields, cons_valid, valid_addresses, first_occurrences, extract-fields,
}

abbrev all_bytes : (ℕ → Bool) → Text → Bool
all_bytes p [] = true
all_bytes p (c ∷ cs) = p c && all_bytes p cs

abbrev pub all_addresses : (Addr → Bool) → List Addr → Bool
all_addresses p [] = true
all_addresses p (a ∷ l) = p a && all_addresses p l

abbrev all_fields : (ℕ → Bool) → List Text → Bool
all_fields p [] = true
all_fields p (f ∷ fs) = all_bytes p f && all_fields p fs

abbrev holds : (Addr → Bool) → Option Addr → Bool
holds p none = true
holds p (some a) = p a

-- Each field consists of the alphabet's bytes.
fields-alphabet :
    (alphabet text : Text) → all_fields (contains_byte alphabet) (fields alphabet text) ≡ true
unfolding fields
fields-alphabet alphabet [] = refl
fields-alphabet alphabet (c ∷ text) = elim (Bool-cases (contains_byte alphabet c)) [
  | inl h ↦ rw h (grown c (fields alphabet text) h (fields-alphabet alphabet text))
  | inr h ↦ rw h (fields-alphabet alphabet text)
]
  where
    grown :
        (c : ℕ) (fs : List Text)
        → contains_byte alphabet c ≡ true
        → all_fields (contains_byte alphabet) fs ≡ true
        → all_fields (contains_byte alphabet) (add_byte c fs) ≡ true
    grown c [] h k = rw h
    grown c (f ∷ fs) h k = rw h k

module _ (p : Addr → Bool) where
  all-first_occurrences :
      (before l : List Addr)
      → all_addresses p l ≡ true
      → all_addresses p (first_occurrences before l) ≡ true
  unfolding first_occurrences
  all-first_occurrences before [] h = refl
  all-first_occurrences before (a ∷ l) h = elim (Bool-cases (seen a before)) [
    | inl k ↦ rw k (all-first_occurrences before l (ground arith))
    | inr k ↦ rw k (ground (arith, all-first_occurrences (before ++ a ∷ []) l))
  ]

  all-cons_valid :
      (o : Option Addr) (l : List Addr)
      → holds p o ≡ true
      → all_addresses p l ≡ true
      → all_addresses p (cons_valid o l) ≡ true
  all-cons_valid none l h k = k
  all-cons_valid (some a) l h k = rw h k

  all-valid_addresses :
      (q : ℕ → Bool)
      → ((f : Text) → all_bytes q f ≡ true → holds p (parse_addr f) ≡ true)
      → (fs : List Text) → all_fields q fs ≡ true
      → all_addresses p (valid_addresses fs) ≡ true
  unfolding valid_addresses
  all-valid_addresses q kind [] h = refl
  all-valid_addresses q kind (f ∷ fs) h =
      all-cons_valid (parse_addr f) (valid_addresses fs) (kind f (ground arith))
        (all-valid_addresses q kind fs (ground arith))

  all-extract :
      (alphabet : Text)
      → ((f : Text) → all_bytes (contains_byte alphabet) f ≡ true → holds p (parse_addr f) ≡ true)
      → (text : Text) → all_addresses p (extract text alphabet) ≡ true
  all-extract alphabet kind text = rw (extract-fields text alphabet) (
      all-first_occurrences [] _ (
        all-valid_addresses (contains_byte alphabet) kind (fields alphabet text)
          (fields-alphabet alphabet text)))

not_separator :
    (c : ℕ) → contains_byte ipv4_alphabet c ≡ true → ((c == b':') ≡ false) × ((c == b'%') ≡ false)
unfolding contains_byte bytes
not_separator c h = ground arith

dispatch-is4 :
    (s f : Text)
    → all_bytes (contains_byte ipv4_alphabet) f ≡ true
    → holds is4 (dispatch s f) ≡ true
unfolding dispatch
dispatch-is4 s [] h = refl
dispatch-is4 s (c ∷ f) h = ground (arith, not_separator c, dispatch-is4 s f)

not_dot : (c : ℕ) → contains_byte ipv6_alphabet c ≡ true → (c == b'.') ≡ false
unfolding contains_byte bytes
not_dot c h = ground arith

zoned-is6 : (s : Text) (z : Option Text) → holds is6 (zoned s z) ≡ true
unfolding zoned
zoned-is6 s none = ground arith
zoned-is6 s (some []) = refl
zoned-is6 s (some (c ∷ z)) = ground arith

dispatch-is6 :
    (s f : Text)
    → all_bytes (contains_byte ipv6_alphabet) f ≡ true
    → holds is6 (dispatch s f) ≡ true
unfolding dispatch
dispatch-is6 s [] h = refl
dispatch-is6 s (c ∷ f) h =
    ground (arith, not_dot c, dispatch-is6 s f, zoned-is6 (cut_zone s).0 (cut_zone s).1)

pub ipv4-is4 : (text : Text) → all_addresses is4 (ipv4 text) ≡ true
unfolding ipv4 parse_addr
ipv4-is4 text = all-extract is4 ipv4_alphabet (λ f. dispatch-is4 f f) text

pub ipv6-is6 : (text : Text) → all_addresses is6 (ipv6 text) ≡ true
unfolding ipv6 parse_addr
ipv6-is6 text = all-extract is6 ipv6_alphabet (λ f. dispatch-is6 f f) text

-- Every address that IPv4 returns is an IPv4 address, and every address that IPv6 returns is an IPv6
-- address.
pub extract_kinds :
    (text : Text) → (all_addresses is4 (ipv4 text) ≡ true) × (all_addresses is6 (ipv6 text) ≡ true)
extract_kinds text = (ipv4-is4 text, ipv6-is6 text)
