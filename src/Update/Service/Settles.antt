-- ===== src/Update/Service/Settles.antt =====
-- How code that acts on the world changes the records: some get a final status, the others stay.
use ddns_updater.Prelude.{
  ◌==◌, Bool-cases, length, get_elem?, set, length-set, get_elem?-set_self, get_elem?-set_ne,
  get_elem?-lt, ℕ, ◌≡◌, refl, sym, ap, ◌∙◌, inl, inr, Bool, true, false, ◌||◌, some, List, arith,
}
use ddns_updater.Models.{Status, Record, fail, success, up_to_date, updating, unset}

abbrev pub is_settled : Status → Bool
is_settled fail = true
is_settled success = true
is_settled up_to_date = true
is_settled updating = false
is_settled unset = false

-- From the records `old` to the records `later`, those that `touched` selects by their ids get a
-- final status, and the others stay as they are; the providers all stay.
pub record Settles (touched : ℕ → Bool) (old later : List Record) : Type 0 where
  pub same_length : length later ≡ length old
  pub others : (i : ℕ) → touched i ≡ false → get_elem? later i ≡ get_elem? old i
  pub settled :
      (i : ℕ) (r : Record)
      → touched i ≡ true
      → get_elem? later i ≡ some r
      → is_settled r.status ≡ true
  pub providers :
      (i : ℕ) (r : Record)
      → get_elem? later i ≡ some r
      → (q : Record) × (get_elem? old i ≡ some q) × (r.provider ≡ q.provider)

pub Settles-nothing : (l : List Record) → Settles (λ i. false) l l
Settles-nothing l = record {
  same_length = refl;
  others = λ i h. refl;
  settled = λ i r h e. cc;
  providers = λ i r e. (r, e, refl);
}

pub Settles-one :
    (l : List Record) (id : ℕ) (r r' : Record)
    → get_elem? l id ≡ some r
    → r'.provider ≡ r.provider
    → is_settled r'.status ≡ true
    → Settles (λ i. id == i) l (set l id r')
Settles-one l id r r' e p s = record {
  same_length = length-set l id r';
  others = λ i h. elsewhere i h;
  settled =
      λ i q h k. let (same, here) = at_id i h in let equal = sym k ∙ here in ground (arith, equal);
  providers = λ i q k. elim (Bool-cases (id == i)) [
    | inl h ↦
        let (same, here) = at_id i h in
        let equal = sym k ∙ here in (r, ap (get_elem? l) (sym same) ∙ e, ground (arith, equal, p))
    | inr h ↦ (q, sym (elsewhere i h) ∙ k, refl)
  ];
}
  where
    at_id : (i : ℕ) → (id == i) ≡ true → (id ≡ i) × (get_elem? (set l id r') i ≡ some r')
    at_id i h =
        let same : id ≡ i = ground arith in
        (same, rw (sym same) (get_elem?-set_self l id r' (get_elem?-lt l id r e)))

    elsewhere : (i : ℕ) → (id == i) ≡ false → get_elem? (set l id r') i ≡ get_elem? l i
    elsewhere i h = get_elem?-set_ne l id i r' (λ k. ground (arith, k))

neither : (a b : Bool) → (a || b) ≡ false → (a ≡ false) × (b ≡ false)
neither a b h = ground arith

first_of : (a b : Bool) → (a || b) ≡ true → b ≡ false → a ≡ true
first_of a b h k = ground arith

pub Settles-trans :
    (p q : ℕ → Bool) (old middle later : List Record)
    → Settles p old middle
    → Settles q middle later
    → Settles (λ i. p i || q i) old later
Settles-trans p q old middle later first second = record {
  same_length = second.same_length ∙ first.same_length;
  others = λ i h. let (a, b) = neither (p i) (q i) h in second.others i b ∙ first.others i a;
  settled = λ i r h e. elim (Bool-cases (q i)) [
    | inl b ↦ second.settled i r b e
    | inr b ↦ first.settled i r (first_of (p i) (q i) h b) (sym (second.others i b) ∙ e)
  ];
  providers = λ i r e.
      let (s, e', same) = second.providers i r e in
      let (t, e'', same') = first.providers i s e' in (t, e'', same ∙ same');
}

pub Settles-same :
    (p q : ℕ → Bool) (old later : List Record)
    → ((i : ℕ) → p i ≡ q i)
    → Settles p old later
    → Settles q old later
Settles-same p q old later same s = record {
  same_length = s.same_length;
  others = λ i h. s.others i (same i ∙ h);
  settled = λ i r h e. s.settled i r (same i ∙ h) e;
  providers = s.providers;
}
