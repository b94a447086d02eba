-- ===== src/Providers/Recorded.antt =====
-- internal/update/update.go with a client of internal/provider/providers behind Provider.Update: what
-- a record's history tells after an update.
use ddns_updater.Prelude.{
  length, get_elem?, set, get_elem?-set_self, get_elem?-lt, Text, ℕ, suc, ◌^◌, ◌<◌, ◌≡◌, refl, sym,
  ap, subst, ◌∙◌, Bool, true, false, Option, some,
}
use ddns_updater.Result.{Result, ok, err, panic}
use ddns_updater.IpVersion.{IpVersion}
use ddns_updater.Netip.{Addr, Prefix}
use ddns_updater.Models.{Record, success, get_current_ip, get_current_ip-append}
use ddns_updater.Provider.{Client, UpdateError, banned_abuse, Object, Provider}
use ddns_updater.Providers.Registry.{Name, Given, is_covered, new}
use ddns_updater.Providers.Contract.{new-Confirms}
use ddns_updater.Update.World.{Env, Failure, World}
use ddns_updater.Update.Updater.{update}
use ddns_updater.Update.Updater.Final.{final, started, answered, update-final}

-- errors.Is(err, ErrBannedAbuse)
abbrev pub is_ban : UpdateError → Bool
is_ban banned_abuse = true
is_ban _ = false

-- What the caller of Provider.Update sees, where `text` gives an error's text.
abbrev pub as_answer : (UpdateError → Text) → Result UpdateError Addr → Result Failure Addr
as_answer text (ok a) = ok a
as_answer text (err e) = err (record { message = text e; banned_abuse = is_ban e })
as_answer text panic = panic

final-confirmed :
    (text : UpdateError → Text) (r : Record) (ip : Addr) (began at : ℕ)
    (o : Result UpdateError Addr)
    → ((a : Addr) → o ≡ ok a → a ≡ ip)
    → (final r ip began at (as_answer text o)).status ≡ success
    → get_current_ip (final r ip began at (as_answer text o)).history ≡ ip
unfolding final
final-confirmed text r ip began at (ok a) same h = get_current_ip-append r.history _ ∙ same a refl
final-confirmed text r ip began at (err e) same h = cc
final-confirmed text r ip began at panic same h = cc

abbrev some_of : Record → Option Record
some_of r = some r

some_inj : {a b : Record} → some_of a ≡ some_of b → a ≡ b
some_inj h = cc

-- If the record is in the database, of fewer than 2^64 records, and its provider is a client that New
-- built for one of the thirty covered services (`is_covered`), then a record that has the status
-- success after an update has the address that was asked for as its current address, whatever the
-- service answered.
pub update-asked :
    (g : Given) (name : Name) (raw : Object) (domain owner : Text) (version : IpVersion)
    (suffix : Prefix) (p : Provider) (text : UpdateError → Text) (client : ℕ → Client) (env : Env)
    (id : ℕ) (ip : Addr) (r s : Record) (w : World)
    → is_covered name ≡ true
    → new g name raw domain owner version suffix ≡ ok p
    → ((tick : ℕ)
        → env.provider_update r.provider ip tick ≡ as_answer text (p.update (client tick) ip))
    → length w.db.records < 2 ^ 64
    → get_elem? w.db.records id ≡ some r
    → get_elem? (update env id ip w).1.db.records id ≡ some s
    → s.status ≡ success
    → get_current_ip s.history ≡ ip
update-asked g name raw domain owner version suffix p text client env id ip r s w covered built
      wired small found stored done =
    let tick = suc (suc w.tick) in
    let o = p.update (client tick) ip in
    let began = started env id ip r w small found in
    let at = answered env id ip r w small found in
    let left : Record = final r ip began at (as_answer text o) in
    let replaced : (update env id ip w).1.db.records ≡ set w.db.records id left =
      update-final env id ip r w small found
      ∙ ap (λ x. set w.db.records id (final r ip began at x)) (wired tick) in
    let there : get_elem? (set w.db.records id left) id ≡ some left =
      get_elem?-set_self w.db.records id left (get_elem?-lt w.db.records id r found) in
    let same : left ≡ s = some_inj (sym there ∙ ap (λ l. get_elem? l id) (sym replaced) ∙ stored) in
    let confirms =
      new-Confirms g name raw domain owner version suffix p covered built (client tick) ip in
    subst (λ x. get_current_ip x.history ≡ ip) same
      (final-confirmed text r ip began at o (λ a h. (confirms a h).same) (rw same done))
