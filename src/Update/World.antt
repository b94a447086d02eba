-- ===== src/Update/World.antt =====
-- What internal/update acts on: its collaborators, as functions of a tick that counts the calls made
-- to them, and the state that the calls change.
use ddns_updater.Prelude.{Text, ℕ, suc, Bool, Option, none, some, List, [], ◌∷◌, ◌++◌}
use ddns_updater.Result.{Result}
use ddns_updater.Times.{Time}
use ddns_updater.Netip.{Addr}
use ddns_updater.IpVersion.{IpVersion}
use ddns_updater.Models.{Provider, Record}
use ddns_updater.Persistence.{WriteOutcome}
use ddns_updater.Data
use ddns_updater.Data.{DataError}

-- An error of `Provider.Update`: its text, and whether it is ErrBannedAbuse.
pub record Failure : Type 0 where
  pub message : Text
  pub banned_abuse : Bool

pub data Network : Type 0 where
  net_ip4 net_ip6 : Network

-- What LookupNetIP returns.
pub data Answer : Type 0 where
  found : List Addr → Answer
  lookup_failed : Text → Answer

-- The state of healthchecks.io that a ping reports.
pub data PingState : Type 0 where
  ping_ok ping_fail : PingState

-- The collaborators: the clock, the DNS provider behind Provider.Update, the public IP fetcher, the
-- resolver (by network, host and try), whether the answer for ip4 arrives before that for ip6, the
-- order in which a map's keys are visited, the file system, and whether the context is cancelled.
pub record Env : Type 0 where
  pub time_now : ℕ → Time
  pub provider_update : Provider → Addr → ℕ → Result Failure Addr
  pub get_ip : IpVersion → ℕ → Result Text Addr
  pub look_up : Network → Text → ℕ → ℕ → Answer
  pub ip4_first : ℕ → Bool
  pub visit : ℕ → List ℕ → List ℕ
  pub persist : ℕ → WriteOutcome
  pub cancelled : ℕ → Bool

pub record World : Type 0 where
  pub tick : ℕ
  pub db : Data.Database
  pub notified : List Text
  pub pings : List PingState

abbrev pub next_tick : World → World
next_tick w = record w { tick = suc w.tick }

abbrev pub notify : Text → World → World
notify message w = record w { notified = w.notified ++ message ∷ [] }

-- db.Update
unfoldable pub db_update : Env → ℕ → Record → World → Result DataError (Unit {0}) × World
db_update env id r w =
    let (result, db') = Data.update (env.persist w.tick) id r w.db in
    (result, record w { db = db'; tick = suc w.tick })

-- Code that acts on the world; `none` is a panic.
abbrev pub Run {ℓ} : Type ℓ → Type ℓ
Run A = World → Option (A × World)

abbrev pub return {ℓ} : {A : Type ℓ} → A → Run A
return a = λ w. some (a, w)

abbrev bind {ℓ κ} :
    {A : Type ℓ} {B : Type κ} → Option (A × World) → (A → Run B) → Option (B × World)
bind none f = none
bind (some (a, w)) f = f a w

infixl 5 ◌>>=◌
abbrev pub ◌>>=◌ {ℓ κ} : {A : Type ℓ} {B : Type κ} → Run A → (A → Run B) → Run B
m >>= f = λ w. bind (m w) f

-- The clock is read.
abbrev pub now : Env → Run Time
now env = λ w. some (env.time_now w.tick, next_tick w)
