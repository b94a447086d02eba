-- ===== src/Providers/Cloudflare/Writes.antt =====
-- internal/provider/providers/cloudflare/provider.go: when createRecord and the last request of Update
-- succeed.
use ddns_updater.Prelude.{Text, ℕ, ◌≡◌, refl, true, Option, none, some, arith}
use ddns_updater.Result.{ok, err}
use ddns_updater.Netip.{Addr, addr_eq_sound, addr_eq_refl}
use ddns_updater.Netip.Parse.{parse_addr}
use ddns_updater.Provider.{decoding_body, Client, Reply}
use ddns_updater.Provider.Laws.{Decoded, after_status-Decoded, ok-taken, after_status-of_Decoded}
use ddns_updater.Providers.Cloudflare.{
  Cloudflare, Written, post_request, put_request, past_media_type, read_created, compare_received,
  read_updated, put_record, create_record,
}

-- The reply to a write reports success, with this text in its result.
pub record Wrote (decode : Text → Option Written) (reply : Reply) (told : Text) : Type 0 where
  pub written : Written
  pub taken : Decoded past_media_type decode reply written
  pub succeeded : written.success ≡ true
  pub shows : written.result ≡ told

compare_received-ok :
    (ip : Addr) (o : Option Addr) (a : Addr)
    → compare_received ip o ≡ ok a
    → (o ≡ some ip) × (a ≡ ip)
unfolding compare_received
compare_received-ok ip none a h = cc
compare_received-ok ip (some b) a h = ground (arith, addr_eq_sound b ip)

undecoded_created : read_created none ≡ err decoding_body
unfolding read_created
undecoded_created = refl

undecoded_updated : (ip : Addr) → read_updated ip none ≡ err decoding_body
unfolding read_updated
undecoded_updated ip = refl

module _ (decode_updated : Text → Option Written) (p : Cloudflare) (client : Client) (n : ℕ)
    (ip : Addr) (id : Text) where
  pub put_record-Wrote :
      (a : Addr)
      → put_record decode_updated p client n ip id ≡ ok a
      → (a ≡ ip)
        × (told : Text) × Wrote decode_updated (client n (put_request p id ip)) told
        × (parse_addr told ≡ some ip)
  unfolding put_record
  put_record-Wrote a h =
      let (w, taken, rest) =
        after_status-Decoded past_media_type decode_updated (read_updated ip) (undecoded_updated ip)
          _ (client n (put_request p id ip)) (ok-taken _) h in
      let (succeeded, compared) = succeeded_of w rest in
      let (parsed, same) = compare_received-ok ip (parse_addr w.result) a compared in
      (
        same,
        w.result,
        record { written = w; taken = taken; succeeded = succeeded; shows = refl },
        parsed,
      )
    where
      succeeded_of :
          (w : Written)
          → read_updated ip (some w) ≡ ok a
          → (w.success ≡ true) × (compare_received ip (parse_addr w.result) ≡ ok a)
      succeeded_of w rest = unfold read_updated in ground arith

  pub put_record-of_Wrote :
      (told : Text)
      → Wrote decode_updated (client n (put_request p id ip)) told
      → parse_addr told ≡ some ip
      → put_record decode_updated p client n ip id ≡ ok ip
  unfolding put_record
  put_record-of_Wrote told w parsed =
      let compared : read_updated ip (some w.written) ≡ ok ip =
        unfold read_updated in
        unfold compare_received in rw (w.succeeded, w.shows, parsed, addr_eq_refl ip) refl in
      after_status-of_Decoded past_media_type decode_updated (read_updated ip)
        (undecoded_updated ip) _ (client n (put_request p id ip)) w.written w.taken compared

module _ (decode_created : Text → Option Written) (p : Cloudflare) (client : Client) (ip : Addr)
    (id : Text) where
  pub create_record-Wrote :
      create_record decode_created p client ip ≡ ok id
      → Wrote decode_created (client 1 (post_request p ip)) id
  unfolding create_record
  create_record-Wrote h =
      let (w, taken, rest) =
        after_status-Decoded past_media_type decode_created read_created undecoded_created _
          (client 1 (post_request p ip)) (ok-taken _) h in
      let (succeeded, shows) = succeeded_of w rest in
      record { written = w; taken = taken; succeeded = succeeded; shows = shows }
    where
      succeeded_of :
          (w : Written) → read_created (some w) ≡ ok id → (w.success ≡ true) × (w.result ≡ id)
      succeeded_of w rest = unfold read_created in ground arith

  pub create_record-of_Wrote :
      Wrote decode_created (client 1 (post_request p ip)) id
      → create_record decode_created p client ip ≡ ok id
  unfolding create_record
  create_record-of_Wrote w =
      let made : read_created (some w.written) ≡ ok id =
        unfold read_created in rw (w.succeeded, w.shows) refl in
      after_status-of_Decoded past_media_type decode_created read_created undecoded_created _
        (client 1 (post_request p ip)) w.written w.taken made
