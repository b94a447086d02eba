-- ===== src/Persistence/Reload.antt =====
-- NewDatabase of internal/persistence/json/database.go on the file that `write` leaves.
use ddns_updater.Prelude.{Text, is_empty, ◌≡◌, refl, ap, false, none, List, [], ◌∷◌, arith}
use ddns_updater.Netip.{Addr}
use ddns_updater.Times.{Time}
use ddns_updater.Result.{ok}
use ddns_updater.Persistence.{
  StoredRecord, Database, holds, written, check_data, migrate, new_database, write, store_new_ip,
}
use ddns_updater.Persistence.Check.{last_time, IsNext, check_data-store_event, check_data-parts}

-- Records that pass checkData have an owner, so the migration leaves them alone.
migrate-valid :
    (records : List StoredRecord) → check_data records ≡ none → migrate records ≡ records
unfolding migrate
migrate-valid [] h = refl
migrate-valid (r ∷ records) h =
    let (fine, events, rest) = check_data-parts r records h in
    let named : is_empty r.owner ≡ false = ground arith in
    rw named (ap (◌∷◌ r) (migrate-valid records rest))

reload :
    (records : List StoredRecord)
    → check_data records ≡ none
    → new_database (holds records) ≡ ok (record { records = records; file = holds records })
unfolding new_database
reload records h = rw (migrate-valid records h, new_database, h) (rw (migrate-valid records h))

module _ (domain owner : Text) (ip : Addr) (time : Time) (db : Database) where
  -- If the records are valid and the new address is valid, timed, and not older than the last one of
  -- its record, then a StoreNewIP that is written returns no error, and a restart opens the file to
  -- exactly the database that StoreNewIP left.
  pub new_database-store_new_ip :
      is_empty domain ≡ false
      → is_empty owner ≡ false
      → check_data db.records ≡ none
      → IsNext (last_time domain owner db.records) (record { ip = ip; time = time })
      → let (error, db') = store_new_ip written domain owner ip time db in
        (error ≡ none) × (new_database db'.file ≡ ok db')
  unfolding store_new_ip write
  new_database-store_new_ip hd ho h next = (
    refl,
    reload _ (
        check_data-store_event domain owner (record { ip = ip; time = time }) db.records hd ho h
          next),
  )
