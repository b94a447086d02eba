-- ===== src/Ipextract/Fields.antt =====
-- `extract` of pkg/ipextract/ipextract.go against a split of the text into fields, the maximal runs
-- of the bytes of the alphabet.
use ddns_updater.Prelude.{
  if◌then◌else◌, Bool-cases, Option-cases, length, Text, ℕ, zero, ◌<◌, ◌≡◌, refl, sym, ap, ◌∙◌, inl,
  inr, not, ◌&&◌, ◌||◌, Option, none, some, List, [], ◌∷◌, ◌++◌, append-nil, append_assoc, arith,
}
use ddns_updater.Netip.{Addr, addr_eq_sound, addr_eq_refl}
use ddns_updater.Netip.Parse.{parse_addr}
use ddns_updater.Ipextract.{
  contains_byte, next_field, seen, append_address, extract_loop, suc, extract, Bool, addr_eq, true,
  false,
}

abbrev pub add_byte : ℕ → List Text → List Text
add_byte c [] = (c ∷ []) ∷ []
add_byte c (f ∷ fs) = (c ∷ f) ∷ fs

-- The text, cut at each byte that is not in the alphabet.
unfoldable pub fields : Text → Text → List Text
fields alphabet [] = [] ∷ []
fields alphabet (c ∷ text) =
    if contains_byte alphabet c
    then add_byte c (fields alphabet text)
    else [] ∷ fields alphabet text

abbrev pub cons_valid : Option Addr → List Addr → List Addr
cons_valid none rest = rest
cons_valid (some a) rest = a ∷ rest

-- The fields that are addresses.
unfoldable pub valid_addresses : List Text → List Addr
valid_addresses [] = []
valid_addresses (f ∷ fs) = cons_valid (parse_addr f) (valid_addresses fs)

-- The first occurrences of the addresses that are not among `before`.
unfoldable pub first_occurrences : List Addr → List Addr → List Addr
first_occurrences before [] = []
first_occurrences before (a ∷ as') =
    if seen a before
    then first_occurrences before as'
    else a ∷ first_occurrences (before ++ a ∷ []) as'

module _ (alphabet : Text) where
  -- One turn of the inner loop takes the first field off.
  abbrev following : Option Text → List Text
  following none = []
  following (some rest) = fields alphabet rest

  fields-next_field :
      (text : Text)
      → fields alphabet text ≡ (next_field alphabet text).0 ∷ following (next_field alphabet text).1
  unfolding fields next_field
  fields-next_field [] = refl
  fields-next_field (c ∷ text) = elim (Bool-cases (contains_byte alphabet c)) [
    | inl h ↦ rw (h, fields-next_field text)
    | inr h ↦ rw h
  ]

  -- What is left behind the first field is shorter.
  next_field-lt :
      (text rest : Text) → (next_field alphabet text).1 ≡ some rest → length rest < length text
  unfolding next_field
  next_field-lt [] rest h = ground arith
  next_field-lt (c ∷ text) rest h = elim (Bool-cases (contains_byte alphabet c)) [
    | inl e ↦ let h' = rw e at h in omega (arith, next_field-lt text rest h')
    | inr e ↦ let h' = rw e at h in ground arith
  ]

append_address_lem :
    (o : Option Addr) (before rest : List Addr)
    → append_address o before ++ first_occurrences (append_address o before) rest
      ≡ before ++ first_occurrences before (cons_valid o rest)
unfolding append_address first_occurrences
append_address_lem none before rest = refl
append_address_lem (some a) before rest = elim (Bool-cases (seen a before)) [
  | inl h ↦ rw h
  | inr h ↦ rw h (append_assoc before (a ∷ []) _)
]

module _ (fuel : ℕ) (alphabet text : Text) (addresses : List Addr) where
  extract_loop_last :
      (next_field alphabet text).1 ≡ none
      → extract_loop (suc fuel) alphabet text addresses
        ≡ some (append_address (parse_addr (next_field alphabet text).0) addresses)
  unfolding extract_loop
  extract_loop_last e = rw (e, extract_loop)

  extract_loop_more :
      (rest : Text)
      → (next_field alphabet text).1 ≡ some rest
      → extract_loop (suc fuel) alphabet text addresses
        ≡ extract_loop fuel alphabet rest
            (append_address (parse_addr (next_field alphabet text).0) addresses)
  unfolding extract_loop
  extract_loop_more rest e = rw (e, extract_loop)

last_step :
    (o : Option Addr) (before : List Addr)
    → append_address o before ++ [] ≡ before ++ first_occurrences before (cons_valid o [])
unfolding first_occurrences
last_step o before = append_address_lem o before []

next_step :
    (field : Text) (before : List Addr) (fs : List Text)
    → before ++ first_occurrences before (cons_valid (parse_addr field) (valid_addresses fs))
      ≡ before ++ first_occurrences before (valid_addresses (field ∷ fs))
unfolding valid_addresses
next_step field before fs = refl

-- With enough fuel the outer loop ends, and has appended the first occurrences.
extract_loop_lem :
    (fuel : ℕ) (alphabet text : Text) (addresses : List Addr)
    → length text < fuel
    → extract_loop fuel alphabet text addresses
      ≡ some (addresses ++ first_occurrences addresses (valid_addresses (fields alphabet text)))
extract_loop_lem zero alphabet text addresses h = elim h [ ]
extract_loop_lem (suc fuel) alphabet text addresses h =
    let field = (next_field alphabet text).0 in
    let addresses' = append_address (parse_addr field) addresses in
    elim (Option-cases (next_field alphabet text).1) [
      | inl e ↦
          rw (extract_loop_last fuel alphabet text addresses e, fields-next_field alphabet text, e)
            (unfold valid_addresses in
              ap some (sym (append-nil addresses') ∙ last_step (parse_addr field) addresses))
      | inr (rest, e) ↦
          let shorter = next_field-lt alphabet text rest e in
          let ih = extract_loop_lem fuel alphabet rest addresses' (omega arith) in
          rw
            (
              extract_loop_more fuel alphabet text addresses rest e,
              fields-next_field alphabet text,
              e,
            )
            (ih
              ∙ ap some (
                  append_address_lem (parse_addr field) addresses
                    (valid_addresses (fields alphabet rest))
                  ∙ next_step field addresses _))
    ]

-- `extract` returns the valid addresses among the fields, each at its first occurrence only.
pub extract-fields :
    (text alphabet : Text)
    → extract text alphabet ≡ first_occurrences [] (valid_addresses (fields alphabet text))
unfolding extract
extract-fields text alphabet =
    rw (extract_loop_lem (suc (length text)) alphabet text [] (omega arith))

seen-append : (a b : Addr) (l : List Addr) → seen a (l ++ b ∷ []) ≡ (seen a l || addr_eq a b)
unfolding seen
seen-append a b [] = ground arith
seen-append a b (c ∷ l) = ground (arith, seen-append a b l)

-- No address stands in the list twice.
unfoldable pub distinct : List Addr → Bool
distinct [] = true
distinct (a ∷ as') = not (seen a as') && distinct as'

seen_eq : (a b : Addr) (l : List Addr) → addr_eq a b ≡ true → seen b l ≡ true → seen a l ≡ true
seen_eq a b l e h = rw (addr_eq_sound a b e) h

seen-first_occurrences :
    (a : Addr) (before l : List Addr)
    → (seen a before || seen a (first_occurrences before l)) ≡ (seen a before || seen a l)
unfolding seen first_occurrences
seen-first_occurrences a before [] = refl
seen-first_occurrences a before (b ∷ l) = elim (Bool-cases (seen b before)) [
  | inl h ↦ rw h (ground (arith, seen-first_occurrences a before l, seen_eq a b before))
  | inr h ↦
      rw h (ground (arith, seen-first_occurrences a (before ++ b ∷ []) l, seen-append a b before))
]

not_seen-first_occurrences :
    (a : Addr) (before l : List Addr)
    → seen a before ≡ true
    → seen a (first_occurrences before l) ≡ false
unfolding seen first_occurrences
not_seen-first_occurrences a before [] h = refl
not_seen-first_occurrences a before (b ∷ l) h = elim (Bool-cases (seen b before)) [
  | inl k ↦ rw k (not_seen-first_occurrences a before l h)
  | inr k ↦ rw k (
      ground (
        arith,
        not_seen-first_occurrences a (before ++ b ∷ []) l,
        seen-append a b before,
        addr_eq_sound a b,
      ))
]

distinct-first_occurrences : (before l : List Addr) → distinct (first_occurrences before l) ≡ true
unfolding distinct first_occurrences
distinct-first_occurrences before [] = refl
distinct-first_occurrences before (a ∷ l) = elim (Bool-cases (seen a before)) [
  | inl k ↦ rw k (distinct-first_occurrences before l)
  | inr k ↦ rw k (
      ground (
        arith,
        distinct-first_occurrences (before ++ a ∷ []) l,
        not_seen-first_occurrences a (before ++ a ∷ []) l,
        seen-append a a before,
        addr_eq_refl a,
      ))
]

-- The extracted addresses are pairwise different, and an address is among them exactly if it is
-- the value of one of the fields.
pub extract-distinct :
    (text alphabet : Text)
    → (distinct (extract text alphabet) ≡ true)
      × ((a : Addr)
          → seen a (extract text alphabet) ≡ seen a (valid_addresses (fields alphabet text)))
extract-distinct text alphabet = rw (extract-fields text alphabet) (
  distinct-first_occurrences [] (valid_addresses (fields alphabet text)),
  λ a. seen_in_all a (valid_addresses (fields alphabet text)),
)
  where
    seen_in_all : (a : Addr) (l : List Addr) → seen a (first_occurrences [] l) ≡ seen a l
    seen_in_all a l = unfold seen in seen-first_occurrences a [] l
