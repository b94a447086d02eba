-- ===== src/Providers/Cloudflare/Lookup.antt =====
-- internal/provider/providers/cloudflare/provider.go: the outcomes of getRecordID.
use ddns_updater.Prelude.{
  if◌then◌else◌, Bool-cases, Text, text_eq, text_eq_refl, text_eq_sound, ◌≡◌, refl, ap, ◌∙◌, ◌≢◌,
  inl, inr, true, false, not, Option, none, some, List, [], ◌∷◌, arith,
}
use ddns_updater.Result.{Result, ok, err}
use ddns_updater.Netip.{Addr}
use ddns_updater.Netip.Print.{addr_string}
use ddns_updater.Provider.{
  not_ok, decoding_body, Client, Reply, received_no_result, UpdateError, unsuccessful,
}
use ddns_updater.Provider.Laws.{
  Decoded, after_status-Decoded, is_untaken, guard_else, after_status-of_Decoded,
}
use ddns_updater.Providers.Cloudflare.{
  Cloudflare, Listed, identify, list_request, read_listed, get_record_id, Identifier, Result,
  up_to_date, found, is_none,
}

-- The reply to the lookup lists these results, and reports no error.
pub record Found (decode_listed : Text → Option Listed) (reply : Reply)
    (results : List (Text × Text)) : Type 0 where
  pub listed : Listed
  pub taken : Decoded not_ok decode_listed reply listed
  pub no_errors : listed.errors ≡ []
  pub succeeded : listed.success ≡ true
  pub shows : listed.result ≡ results

abbrev ok_identifier : Identifier → Result UpdateError Identifier
ok_identifier i = ok i

undecoded_listed : (ip : Addr) → read_listed ip none ≡ err decoding_body
unfolding read_listed
undecoded_listed ip = refl

-- What read_listed makes of a document, beside its own refusals
read_listed-identify :
    (ip : Addr) (l : Listed)
    → l.errors ≡ []
    → l.success ≡ true
    → read_listed ip (some l) ≡ identify ip l.result
unfolding read_listed
read_listed-identify ip l none_of done = rw (none_of, done) refl

module _ (decode_listed : Text → Option Listed) (p : Cloudflare) (client : Client) (ip : Addr) where
  pub get_record_id-of_Found :
      (results : List (Text × Text)) (t : Result UpdateError Identifier)
      → Found decode_listed (client 0 (list_request p ip)) results
      → identify ip results ≡ t
      → get_record_id decode_listed p client ip ≡ t
  unfolding get_record_id
  get_record_id-of_Found results t f picked =
      after_status-of_Decoded not_ok decode_listed (read_listed ip) (undecoded_listed ip) _
        (client 0 (list_request p ip)) f.listed f.taken
        (read_listed-identify ip f.listed f.no_errors f.succeeded
          ∙ ap (identify ip) f.shows
          ∙ picked)

  pub get_record_id-Found :
      (t : Result UpdateError Identifier)
      → ((e : UpdateError) → is_untaken e ≡ true → t ≢ err e)
      → t ≢ err unsuccessful
      → get_record_id decode_listed p client ip ≡ t
      → (results : List (Text × Text)) × Found decode_listed (client 0 (list_request p ip)) results
        × (identify ip results ≡ t)
  unfolding get_record_id
  get_record_id-Found t apart not_unsuccessful h =
      let (l, taken, rest) =
        after_status-Decoded not_ok decode_listed (read_listed ip) (undecoded_listed ip) t
          (client 0 (list_request p ip)) apart h in
      let (no_errors, succeeded, picked) = listed_of l rest in
      (
        l.result,
        record {
          listed = l;
          taken = taken;
          no_errors = no_errors;
          succeeded = succeeded;
          shows = refl;
        },
        picked,
      )
    where
      nothing : (es : List Text) → not (is_none es) ≡ false → es ≡ []
      nothing [] h = refl
      nothing (e ∷ es) h = cc

      listed_of :
          (l : Listed)
          → read_listed ip (some l) ≡ t
          → (l.errors ≡ []) × (l.success ≡ true) × (identify ip l.result ≡ t)
      listed_of l rest =
          let (none_of, more) =
            guard_else t unsuccessful (not (is_none l.errors))
              (if not l.success then err unsuccessful else identify ip l.result) not_unsuccessful
              (unfold read_listed in rest) in
          let (done, picked) =
            guard_else t unsuccessful (not l.success) (identify ip l.result) not_unsuccessful
              more in
          (nothing l.errors none_of, ground arith, picked)

abbrev pub no_result : Result UpdateError Identifier
no_result = err received_no_result

pub no_result-successful : no_result ≢ err unsuccessful
no_result-successful h = cc

-- What the results were, from what identify makes of them
pub identify-current :
    (ip : Addr) (rs : List (Text × Text))
    → identify ip rs ≡ ok up_to_date
    → (id : Text) × (rs ≡ (id, addr_string ip) ∷ [])
unfolding identify
identify-current ip [] h = cc
identify-current ip ((id, content) ∷ []) h = elim (Bool-cases (text_eq content (addr_string ip))) [
  | inl equal ↦ (id, ap (λ c. (id, c) ∷ []) (text_eq_sound content (addr_string ip) equal))
  | inr differs ↦ let clash : ok_identifier (found id) ≡ ok up_to_date = rw differs at h in cc
]
identify-current ip (first ∷ second ∷ rest) h = cc

pub identify-found :
    (ip : Addr) (rs : List (Text × Text)) (id : Text)
    → identify ip rs ≡ ok (found id)
    → (content : Text) × (rs ≡ (id, content) ∷ []) × (text_eq content (addr_string ip) ≡ false)
unfolding identify
identify-found ip [] id h = cc
identify-found ip ((id', content) ∷ []) id h =
    elim (Bool-cases (text_eq content (addr_string ip))) [
      | inl equal ↦ let clash : ok_identifier up_to_date ≡ ok (found id) = rw equal at h in cc
      | inr differs ↦
          let same : ok_identifier (found id') ≡ ok (found id) = rw differs at h in
          (content, ap (λ i. (i, content) ∷ []) (id_of same), differs)
    ]
  where
    id_of : {i j : Text} → ok_identifier (found i) ≡ ok (found j) → i ≡ j
    id_of k = cc
identify-found ip (first ∷ second ∷ rest) id h = cc

pub identify-none :
    (ip : Addr) (rs : List (Text × Text)) → identify ip rs ≡ err received_no_result → rs ≡ []
unfolding identify
identify-none ip [] h = refl
identify-none ip ((id, content) ∷ []) h = ground arith
identify-none ip (first ∷ second ∷ rest) h = cc

pub identify-same :
    (ip : Addr) (id : Text) → identify ip ((id, addr_string ip) ∷ []) ≡ ok up_to_date
unfolding identify
identify-same ip id = rw (text_eq_refl (addr_string ip)) refl

pub identify-other :
    (ip : Addr) (id content : Text)
    → text_eq content (addr_string ip) ≡ false
    → identify ip ((id, content) ∷ []) ≡ ok (found id)
unfolding identify
identify-other ip id content differs = rw differs refl

pub identify-empty : (ip : Addr) → identify ip [] ≡ err received_no_result
unfolding identify
identify-empty ip = refl
