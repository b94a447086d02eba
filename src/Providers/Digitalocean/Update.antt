-- ===== src/Providers/Digitalocean/Update.antt =====
-- When Update of internal/provider/providers/digitalocean/provider.go succeeds.
use ddns_updater.Prelude.{
  set, Text, ◌≡◌, refl, sym, ap, subst, ◌∙◌, ◌↔◌, false, Option, none, some, List, [], ◌∷◌, arith,
}
use ddns_updater.Prelude.Int.{ℤ}
use ddns_updater.Result.{Result, ok, err, panic}
use ddns_updater.Netip.{Addr, addr_eq_sound, addr_eq_refl}
use ddns_updater.Netip.Parse.{parse_addr}
use ddns_updater.Provider.{after_status, not_ok, record_type}
use ddns_updater.Provider.Laws.{
  Decoded, guard_ok, after_status-Decoded, ok-taken, after_status-of_Decoded,
}
use ddns_updater.Provider.{domain_id_not_found, decoding_body, Client, UpdateError}
use ddns_updater.Providers.Digitalocean.{
  Digitalocean, records_request, is_zero, first_id, put_request, compare_received, compare_data,
  get_record_id, update_record, update,
}

-- What a successful Update rests on: the first record found for the name and the type has an id other
-- than 0, and the change of that very record was confirmed with the address that was sent.
pub record Changed (decode_records : Text → Option (List ℤ)) (decode_record : Text → Option Text)
    (p : Digitalocean) (client : Client) (ip : Addr) : Type 0 where
  pub id : ℤ
  pub others : List ℤ
  pub found :
      Decoded not_ok decode_records (client 0 (records_request p (record_type ip))) (id ∷ others)
  pub id_set : is_zero id ≡ false
  pub shown : Text
  pub changed : Decoded not_ok decode_record (client 1 (put_request p id ip)) shown
  pub address : parse_addr shown ≡ some ip

abbrev ok_id : ℤ → Result UpdateError ℤ
ok_id i = ok i

first_id-ok :
    (ids : List ℤ) (id : ℤ)
    → first_id (some ids) ≡ ok id
    → (others : List ℤ) × (ids ≡ id ∷ others) × (is_zero id ≡ false)
unfolding first_id
first_id-ok [] id h = cc
first_id-ok (i ∷ others) id h =
    let (set, made) = guard_ok domain_id_not_found (is_zero i) (ok i) h in
    let same : i ≡ id = id_of made in (others, ap (λ x. x ∷ others) same, rw (sym same) set)
  where
    id_of : {i j : ℤ} → ok_id i ≡ ok_id j → i ≡ j
    id_of k = cc

compare_received-ok :
    (ip : Addr) (o : Option Addr) (a : Addr)
    → compare_received ip o ≡ ok a
    → (o ≡ some ip) × (a ≡ ip)
unfolding compare_received
compare_received-ok ip none a h = cc
compare_received-ok ip (some b) a h = ground (arith, addr_eq_sound b ip)

compare_data-ok :
    (ip : Addr) (t : Text) (a : Addr)
    → compare_data ip (some t) ≡ ok a
    → (parse_addr t ≡ some ip) × (a ≡ ip)
unfolding compare_data
compare_data-ok ip t a h = compare_received-ok ip (parse_addr t) a h

no_ids : first_id none ≡ err decoding_body
unfolding first_id
no_ids = refl

no_data : (ip : Addr) → compare_data ip none ≡ err decoding_body
unfolding compare_data
no_data ip = refl

module _ (decode_records : Text → Option (List ℤ)) (decode_record : Text → Option Text)
    (p : Digitalocean) (client : Client) (ip a : Addr) where
  update_record-ok :
      (r : Result UpdateError ℤ)
      → update_record decode_records decode_record p client ip r ≡ ok a
      → (id : ℤ) × (r ≡ ok id)
        × (after_status not_ok
              (λ body. compare_data ip (decode_record body))
              (client 1 (put_request p id ip))
            ≡ ok a)
  unfolding update_record
  update_record-ok (ok id) h = (id, refl, h)
  update_record-ok (err e) h = cc
  update_record-ok panic h = cc

  update-Changed :
      update decode_records decode_record p client ip ≡ ok a
      → (a ≡ ip) × Changed decode_records decode_record p client ip
  unfolding update get_record_id
  update-Changed h =
      let (id, got, put) = update_record-ok _ h in
      let (ids, found, picked) =
        after_status-Decoded not_ok decode_records first_id no_ids _
          (client 0 (records_request p (record_type ip))) (ok-taken _) got in
      let (others, first, id_set) = first_id-ok ids id picked in
      let (shown, changed, compared) =
        after_status-Decoded not_ok decode_record (compare_data ip) (no_data ip) _
          (client 1 (put_request p id ip)) (ok-taken _) put in
      let (address, same) = compare_data-ok ip shown a compared in
      (
        same,
        record {
          id = id;
          others = others;
          found =
              subst (Decoded not_ok decode_records (client 0 (records_request p (record_type ip))))
                first found;
          id_set = id_set;
          shown = shown;
          changed = changed;
          address = address;
        },
      )

  update-of_Changed :
      Changed decode_records decode_record p client ip
      → update decode_records decode_record p client ip ≡ ok ip
  unfolding update get_record_id update_record
  update-of_Changed c =
      let picked : first_id (some (c.id ∷ c.others)) ≡ ok c.id =
        unfold first_id in rw c.id_set refl in
      let got : get_record_id decode_records p (record_type ip) client ≡ ok c.id =
        after_status-of_Decoded not_ok decode_records first_id no_ids _
          (client 0 (records_request p (record_type ip))) (c.id ∷ c.others) c.found picked in
      let compared : compare_data ip (some c.shown) ≡ ok ip =
        unfold compare_data in unfold compare_received in rw (c.address, addr_eq_refl ip) refl in
      ap (update_record decode_records decode_record p client ip) got
      ∙ after_status-of_Decoded not_ok decode_record (compare_data ip) (no_data ip) _
          (client 1 (put_request p c.id ip)) c.shown c.changed compared

  -- Update succeeds exactly when the first record found for the name and the type of the address has
  -- an id other than 0 and the change of that record is confirmed with the address that was sent; it
  -- then returns that address.
  pub update_iff :
      (update decode_records decode_record p client ip ≡ ok a)
      ↔ ((a ≡ ip) × Changed decode_records decode_record p client ip)
  update_iff = (update-Changed, λ c. update-of_Changed c.1 ∙ ap ok (sym c.0))
