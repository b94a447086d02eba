-- ===== src/Providers/Cloudflare/Update.antt =====
-- When Update of internal/provider/providers/cloudflare/provider.go succeeds.
use ddns_updater.Prelude.{
  if◌then◌else◌, Text, text_eq, ◌≡◌, refl, sym, ap, subst, ◌∙◌, ◌↔◌, false, Option, some, [], ◌∷◌,
}
use ddns_updater.Result.{Result, ok, err, panic}
use ddns_updater.Netip.{Addr}
use ddns_updater.Netip.Parse.{parse_addr}
use ddns_updater.Netip.Print.{addr_string}
use ddns_updater.Provider.{Client, received_no_result, UpdateError}
use ddns_updater.Provider.Laws.{ok-taken, no_result-taken}
use ddns_updater.Providers.Cloudflare.{
  Cloudflare, Listed, Written, list_request, post_request, put_request, put_record, create_record,
  get_record_id, Identifier, Result, up_to_date, found, after_create, is_no_result, after_get,
  update,
}
use ddns_updater.Providers.Cloudflare.Writes.{
  Wrote, put_record-Wrote, put_record-of_Wrote, create_record-Wrote, create_record-of_Wrote,
}
use ddns_updater.Providers.Cloudflare.Lookup.{
  Found, get_record_id-of_Found, get_record_id-Found, identify-current, identify-found,
  identify-none, identify-same, identify-other, identify-empty, no_result-successful,
}

module _ (decode_listed : Text → Option Listed)
    (decode_created decode_updated : Text → Option Written) (p : Cloudflare) (client : Client)
    (ip : Addr) where
  -- What a successful Update rests on: the only record found has the address already; or it has not,
  -- and that very record is set as the second request, confirmed with the address; or there is no
  -- record, one is created, and the created one is set as the third request, confirmed likewise.
  pub data Settled : Type 0 where
    current :
        (id : Text)
        → Found decode_listed (client 0 (list_request p ip)) ((id, addr_string ip) ∷ [])
        → Settled
    changed :
        (id content told : Text)
        → Found decode_listed (client 0 (list_request p ip)) ((id, content) ∷ [])
        → text_eq content (addr_string ip) ≡ false
        → Wrote decode_updated (client 1 (put_request p id ip)) told
        → parse_addr told ≡ some ip
        → Settled
    created :
        (id told : Text)
        → Found decode_listed (client 0 (list_request p ip)) []
        → Wrote decode_created (client 1 (post_request p ip)) id
        → Wrote decode_updated (client 2 (put_request p id ip)) told
        → parse_addr told ≡ some ip
        → Settled

module _ (decode_listed : Text → Option Listed)
    (decode_created decode_updated : Text → Option Written) (p : Cloudflare) (client : Client)
    (ip a : Addr) where
  after_create-ok :
      (r : Result UpdateError Text)
      → after_create decode_updated p client ip r ≡ ok a
      → (id : Text) × (r ≡ ok id) × (put_record decode_updated p client 2 ip id ≡ ok a)
  unfolding after_create
  after_create-ok (ok id) h = (id, refl, h)
  after_create-ok (err e) h = cc
  after_create-ok panic h = cc

  from_created :
      (e : UpdateError)
      → get_record_id decode_listed p client ip ≡ err e
      → (if is_no_result e
          then after_create decode_updated p client ip (create_record decode_created p client ip)
          else err e)
        ≡ ok a
      → (a ≡ ip) × Settled decode_listed decode_created decode_updated p client ip
  from_created received_no_result got h =
      let (results, looked, none_of) =
        get_record_id-Found decode_listed p client ip (err received_no_result) no_result-taken
          no_result-successful got in
      let (id, posted, put) = after_create-ok (create_record decode_created p client ip) h in
      let (same, told, wrote, parsed) = put_record-Wrote decode_updated p client 2 ip id a put in
      (
        same,
        created id told
            (subst (Found decode_listed (client 0 (list_request p ip)))
              (identify-none ip results none_of) looked)
            (create_record-Wrote decode_created p client ip id posted) wrote parsed,
      )
  from_created _ got h = cc

  from_get :
      (r : Result UpdateError Identifier)
      → get_record_id decode_listed p client ip ≡ r
      → after_get decode_created decode_updated p client ip r ≡ ok a
      → (a ≡ ip) × Settled decode_listed decode_created decode_updated p client ip
  unfolding after_get
  from_get (ok up_to_date) got h =
      let (results, looked, picked) =
        get_record_id-Found decode_listed p client ip (ok up_to_date) (ok-taken up_to_date)
          (λ s. cc) got in
      let (id, only) = identify-current ip results picked in
      (cc, current id (subst (Found decode_listed (client 0 (list_request p ip))) only looked))
  from_get (ok (found id)) got h =
      let (results, looked, picked) =
        get_record_id-Found decode_listed p client ip (ok (found id)) (ok-taken (found id))
          (λ s. cc) got in
      let (content, only, differs) = identify-found ip results id picked in
      let (same, told, wrote, parsed) = put_record-Wrote decode_updated p client 1 ip id a h in
      (
        same,
        changed id content told
            (subst (Found decode_listed (client 0 (list_request p ip))) only looked) differs wrote
            parsed,
      )
  from_get (err e) got h = from_created e got h
  from_get panic got h = cc

  update-Settled :
      update decode_listed decode_created decode_updated p client ip ≡ ok a
      → (a ≡ ip) × Settled decode_listed decode_created decode_updated p client ip
  unfolding update
  update-Settled h = from_get (get_record_id decode_listed p client ip) refl h

  update-of_Settled :
      Settled decode_listed decode_created decode_updated p client ip
      → update decode_listed decode_created decode_updated p client ip ≡ ok ip
  unfolding update after_get after_create
  update-of_Settled (current id f) = ap (after_get decode_created decode_updated p client ip) (
      get_record_id-of_Found decode_listed p client ip ((id, addr_string ip) ∷ []) (ok up_to_date) f
        (identify-same ip id))
  update-of_Settled (changed id content told f differs wrote parsed) =
      ap (after_get decode_created decode_updated p client ip) (
        get_record_id-of_Found decode_listed p client ip ((id, content) ∷ []) (ok (found id)) f
          (identify-other ip id content differs))
      ∙ put_record-of_Wrote decode_updated p client 1 ip id told wrote parsed
  update-of_Settled (created id told f posted wrote parsed) =
      ap (after_get decode_created decode_updated p client ip) (
        get_record_id-of_Found decode_listed p client ip [] (err received_no_result) f
          (identify-empty ip))
      ∙ ap (after_create decode_updated p client ip)
          (create_record-of_Wrote decode_created p client ip id posted)
      ∙ put_record-of_Wrote decode_updated p client 2 ip id told wrote parsed

  -- Update succeeds exactly when the only record found has the address already; or it has another
  -- content, and its change is confirmed with the address; or there is no record, and one is created
  -- and then confirmed with the address. It then returns the address that it was given.
  pub update_settled_iff :
      (update decode_listed decode_created decode_updated p client ip ≡ ok a)
      ↔ ((a ≡ ip) × Settled decode_listed decode_created decode_updated p client ip)
  update_settled_iff = (update-Settled, λ c. update-of_Settled c.1 ∙ ap ok (sym c.0))
