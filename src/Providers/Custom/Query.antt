-- ===== src/Providers/Custom/Query.antt =====
-- Update of internal/provider/providers/custom/provider.go: the query of its request, and what the
-- next request still carries of it.
use ddns_updater.Prelude.{
  if◌then◌else◌, Bool-cases, Text, text_eq, text_eq_refl, text_eq_sound, is_empty, ◌≡◌, refl, ap,
  ◌∙◌, inl, inr, Bool, false, Option, some, [], ◌∷◌,
}
use ddns_updater.Provider.{Values, get_value, Client}
use ddns_updater.Providers.Custom.{
  Custom, remove, set_only, set_address, update, with_query, Addr, update_query, ip_key, answer,
  addr_string, request,
}

get_value-remove :
    (key k : Text) (values : Values)
    → text_eq key k ≡ false
    → get_value k (remove key values) ≡ get_value k values
unfolding get_value remove
get_value-remove key k [] h = refl
get_value-remove key k ((j, v) ∷ values) h = elim (Bool-cases (text_eq j key)) [
  | inl e ↦
      let other : text_eq j k ≡ false = rw (text_eq_sound j key e) h in
      rw (e, other) (get_value-remove key k values h)
  | inr e ↦ rw e (same_head (text_eq j k) v (get_value-remove key k values h))
]
  where
    same_head :
        (b : Bool) (v : Text) {m n : Option Text}
        → m ≡ n
        → (if b then some v else m) ≡ (if b then some v else n)
    same_head b v e = ap (λ x. if b then some v else x) e

-- The lookup in a query after a Set
pub get_value-set_only :
    (key value k : Text) (values : Values)
    → get_value k (set_only key value values)
      ≡ (if text_eq key k then some value else get_value k values)
unfolding set_only get_value
get_value-set_only key value k values = elim (Bool-cases (text_eq key k)) [
  | inl e ↦ rw e refl
  | inr e ↦ rw e (get_value-remove key k values e)
]

here : (k v : Text) (o : Option Text) → (if text_eq k k then some v else o) ≡ some v
here k v o = rw (text_eq_refl k) refl

set_address-set_only :
    (p : Custom) (ip : Addr) (values : Values)
    → is_empty (ip_key p ip) ≡ false
    → set_address p ip values ≡ set_only (ip_key p ip) (addr_string ip) values
unfolding set_address
set_address-set_only p ip values named = rw named refl

module _ (matches : Text → Text → Bool) where
  -- One update sends the URL's query with the address set in it, and keeps that query.
  update-query :
      (p : Custom) (client : Client) (ip : Addr) (values : Values)
      → p.url.query ≡ some values
      → update matches p client ip ≡ (
        answer matches p ip (client 0 (request p (set_address p ip values))),
        with_query (set_address p ip values) p,
      )
  unfolding update update_query
  update-query p client ip values e = ap (update_query matches p client ip) e

  -- For a client whose query parses and two addresses that have different and non-empty keys: the
  -- second of two updates is one request, and its query has the second address under its key, but also
  -- still the first address under its own.
  pub update-stale :
      (p : Custom) (client next_client : Client) (a b : Addr) (values : Values)
      → p.url.query ≡ some values
      → is_empty (ip_key p a) ≡ false
      → is_empty (ip_key p b) ≡ false
      → text_eq (ip_key p b) (ip_key p a) ≡ false
      → let q = (update matches p client a).1 in
        (sent : Values) × ((update matches q next_client b).0
          ≡ answer matches q b (next_client 0 (request q sent)))
        × (get_value (ip_key p b) sent ≡ some (addr_string b))
        × (get_value (ip_key p a) sent ≡ some (addr_string a))
  unfolding with_query
  update-stale p client next_client a b values e named-a named-b differ =
      let first = set_address p a values in
      let q = with_query first p in
      let sent = set_only (ip_key p b) (addr_string b) first in
      let one = update-query p client a values e in
      let two = update-query q next_client b first refl in
      let set : set_address q b first ≡ sent = set_address-set_only q b first named-b in
      rw one (
        sent,
        ap (λ x. x.0) two
            ∙ ap (λ (x : Values). answer matches q b (next_client 0 (request q x))) set,
        get_value-set_only (ip_key p b) (addr_string b) (ip_key p b) first
            ∙ here (ip_key p b) (addr_string b) _,
        get_value-set_only (ip_key p b) (addr_string b) (ip_key p a) first
            ∙ rw differ (
                ap (get_value (ip_key p a)) (set_address-set_only p a values named-a)
                ∙ get_value-set_only (ip_key p a) (addr_string a) (ip_key p a) values
                ∙ here (ip_key p a) (addr_string a) _),
      )
