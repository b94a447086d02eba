-- ===== src/Provider/Etld.antt =====
-- The rewriting of a domain that is only the effective top level domain, which the constructors of
-- duckdns and goip make for settings of earlier versions: the last label of the owner moves to the
-- domain.
use ddns_updater.Domain.{build_url_query_hostname}
use ddns_updater.Prelude.{
  ◌==◌, ==_iff, Bool-cases, Text, bytes, text_eq, text_eq_refl, text_eq_sound, has_prefix,
  cons_head, split, join, split_here, split_other, ℕ, ◌≡◌, refl, sym, ap, ◌∙◌, inl, inr, Bool, true,
  false, List, [], ◌∷◌, ◌++◌, append_assoc,
}

abbrev pub last_part : List Text → Text
last_part [] = []
last_part (p ∷ []) = p
last_part (p ∷ q ∷ parts) = last_part (q ∷ parts)

abbrev pub first_parts : List Text → List Text
first_parts [] = []
first_parts (p ∷ []) = []
first_parts (p ∷ q ∷ parts) = p ∷ first_parts (q ∷ parts)

-- The owner that is left: the root, when the last label was all of it.
unfoldable pub owner_left : List Text → Text
owner_left (p ∷ q ∷ parts) = join (bytes ".") (first_parts (p ∷ q ∷ parts))
owner_left _ = bytes "@"

-- The new domain and the new owner
unfoldable pub move_label : Text → Text → Text × Text
unfolding owner_left
move_label domain owner =
    let parts = split b'.' owner in (last_part parts ++ (bytes "." ++ domain), owner_left parts)

abbrev dot : Text
dot = b'.' ∷ []

join-cons_head :
    (sep : Text) (c : ℕ) (s : Text) (ss : List Text)
    → join sep (cons_head c (s ∷ ss)) ≡ c ∷ join sep (s ∷ ss)
unfolding join
join-cons_head sep c s [] = refl
join-cons_head sep c s (t ∷ ss) = refl

split-not_nil : (sep : ℕ) (t : Text) → (s : Text) × (ss : List Text) × (split sep t ≡ s ∷ ss)
split-not_nil sep [] = ([], [], start)
  where
    start : split sep [] ≡ [] ∷ []
    start = unfold split in refl
split-not_nil sep (c ∷ t) =
    let (s, ss, e) = split-not_nil sep t in
    elim (Bool-cases (c == sep)) [
      | inl h ↦ ([], split sep t, split_here sep c t h)
      | inr h ↦ (c ∷ s, ss, split_other sep c t h ∙ ap (cons_head c) e)
    ]

join-empty_head :
    (c : ℕ) (s : Text) (ss : List Text)
    → (c == b'.') ≡ true
    → join dot ([] ∷ s ∷ ss) ≡ c ∷ join dot (s ∷ ss)
unfolding join
join-empty_head c s ss h = ap (λ (d : ℕ). d ∷ join dot (s ∷ ss)) (sym ((==_iff c b'.').0 h))

-- Joining the parts of a split gives the text back.
pub join-split : (t : Text) → join dot (split b'.' t) ≡ t
join-split [] = unfold split in unfold join in refl
join-split (c ∷ t) =
    let (s, ss, e) = split-not_nil b'.' t in
    let ih : join dot (s ∷ ss) ≡ t = ap (join dot) (sym e) ∙ join-split t in
    elim (Bool-cases (c == b'.')) [
      | inl h ↦
          rw (split_here b'.' c t h, e) (join-empty_head c s ss h ∙ ap (λ (u : Text). c ∷ u) ih)
      | inr h ↦
          rw (split_other b'.' c t h, e) (join-cons_head dot c s ss ∙ ap (λ (u : Text). c ∷ u) ih)
    ]

join-last :
    (p q : Text) (parts : List Text)
    → join dot (p ∷ q ∷ parts)
      ≡ join dot (first_parts (p ∷ q ∷ parts)) ++ (dot ++ last_part (p ∷ q ∷ parts))
unfolding join
join-last p q [] = append_assoc p dot q
join-last p q (r ∷ parts) =
    ap (λ (u : Text). (p ++ dot) ++ u) (join-last q r parts)
    ∙ sym (append_assoc (p ++ dot) (join dot (first_parts (q ∷ r ∷ parts))) _)

at_prefix : (t : Text) → has_prefix (bytes "@" ++ (dot ++ t)) (bytes "@.") ≡ true
unfolding has_prefix bytes
at_prefix [] = refl
at_prefix (c ∷ t) = refl

not_root :
    (owner first last : Text)
    → owner ≡ first ++ (dot ++ last)
    → has_prefix owner (bytes "@.") ≡ false
    → text_eq first (bytes "@") ≡ false
not_root owner first last e h = elim (Bool-cases (text_eq first (bytes "@"))) [
  | inl k ↦
      let at : owner ≡ bytes "@" ++ (dot ++ last) =
        e ∙ ap (λ (p : Text). p ++ (dot ++ last)) (text_eq_sound first (bytes "@") k) in
      let starts : has_prefix owner (bytes "@.") ≡ true = rw at (at_prefix last) in
      absurd (differ starts h)
  | inr k ↦ k
]
  where
    differ : {b : Bool} → b ≡ true → b ≡ false → ⊥
    differ p q = cc

bytes-dot : bytes "." ≡ dot
unfolding bytes
bytes-dot = refl

regroup : (a b c x : Text) → (a ++ b) ++ (c ++ x) ≡ (a ++ (b ++ c)) ++ x
regroup a b c x = simp (append_assoc)

by_parts :
    (domain owner p : Text) (rest : List Text)
    → join dot (p ∷ rest) ≡ owner
    → has_prefix owner (bytes "@.") ≡ false
    → build_url_query_hostname
        (owner_left (p ∷ rest))
        (last_part (p ∷ rest) ++ (bytes "." ++ domain))
      ≡ owner ++ (bytes "." ++ domain)
by_parts domain owner p [] e h =
    unfold build_url_query_hostname in
    unfold owner_left in
    unfold join in rw (text_eq_refl (bytes "@")) (ap (λ (u : Text). u ++ (bytes "." ++ domain)) e)
by_parts domain owner p (q ∷ rest) e h =
    let first = join dot (first_parts (p ∷ q ∷ rest)) in
    let last = last_part (q ∷ rest) in
    let whole : owner ≡ first ++ (dot ++ last) = sym e ∙ join-last p q rest in
    let named : text_eq first (bytes "@") ≡ false = not_root owner first last whole h in
    unfold build_url_query_hostname in
    unfold owner_left in
    rw (bytes-dot, named)
      (regroup first dot last (dot ++ domain) ∙ ap (λ (u : Text). u ++ (dot ++ domain)) (sym whole))

-- For an owner that does not begin with `@.`, the host name in the query of a request is the owner
-- under the given domain, as if nothing had been rewritten.
pub move_label-hostname :
    (domain owner : Text)
    → has_prefix owner (bytes "@.") ≡ false
    → build_url_query_hostname (move_label domain owner).1 (move_label domain owner).0
      ≡ owner ++ (bytes "." ++ domain)
unfolding move_label
move_label-hostname domain owner h =
    let (p, rest, shape) = split-not_nil b'.' owner in
    rw shape (by_parts domain owner p rest (ap (join dot) (sym shape) ∙ join-split owner) h)
