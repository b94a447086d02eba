-- ===== src/Update/Service/Returns.antt =====
-- Code that acts on the world and returns, with what its value satisfies and how it changes the
-- records; and what a cycle relies on in its collaborators.
use ddns_updater.Prelude.{
  Bool-cases, length, ℕ, ◌≤◌, ◌≡◌, refl, subst, ◌≢◌, inl, inr, Bool, false, ◌||◌, Option, some,
  List,
}
use ddns_updater.Result.{ok, panic}
use ddns_updater.IpVersion.{IpVersion}
use ddns_updater.Netip.{Addr, v4, v6, invalid, Prefix, prefix, no_prefix, IsAddr, is6}
use ddns_updater.Models.{Provider, Record}
use ddns_updater.Suffix.{ipv6_with_suffix}
use ddns_updater.Suffix.Merge.{ipv6_with_suffix-v6}
use ddns_updater.Update.World.{Env, World, Run, ◌>>=◌}
use ddns_updater.Update.Decide.{with_suffix}
use ddns_updater.Update.Service.{has_id, return}
use ddns_updater.Update.Service.Settles.{Settles, Settles-nothing, Settles-trans}

pub record Returns {ℓ} {A : Type ℓ} (Holds : A → Type 0) (touched : ℕ → Bool) (w : World)
    (result : Option (A × World)) : Type ℓ where
  pub value : A
  pub after : World
  pub equation : result ≡ some (value, after)
  pub holds : Holds value
  pub settles : Settles touched w.db.records after.db.records

abbrev pub Any {ℓ} : {A : Type ℓ} → A → Type 0
Any a = Unit

-- The records stay as they are.
abbrev pub untouched : ℕ → Bool
untouched i = false

pub Returns-then {ℓ κ} :
    {A : Type ℓ} {B : Type κ} (Holds : A → Type 0) (HoldsThen : B → Type 0) (p q : ℕ → Bool)
    (m : Run A) (f : A → Run B) (w : World)
    → Returns Holds p w (m w)
    → ((a : A) (w' : World)
        → Holds a
        → Settles p w.db.records w'.db.records
        → Returns HoldsThen q w' (f a w'))
    → Returns HoldsThen (λ i. p i || q i) w ((m >>= f) w)
Returns-then Holds HoldsThen p q m f w first rest =
    let second = rest first.value first.after first.holds first.settles in
    record {
      value = second.value;
      after = second.after;
      equation = rw first.equation second.equation;
      holds = second.holds;
      settles = Settles-trans p q _ first.after.db.records _ first.settles second.settles;
    }

pub Returns-at_once {ℓ} :
    {A : Type ℓ} (Holds : A → Type 0) (a : A) (w w' : World)
    → Holds a
    → w'.db.records ≡ w.db.records
    → Returns Holds untouched w (some (a, w'))
Returns-at_once Holds a w w' h e = record {
  value = a;
  after = w';
  equation = refl;
  holds = h;
  settles = rw e (Settles-nothing w.db.records);
}

-- A value is computed from the one that was returned.
pub Returns-map {ℓ κ} :
    {A : Type ℓ} {B : Type κ} (Holds : A → Type 0) (HoldsThen : B → Type 0) (p : ℕ → Bool)
    (m : Run A) (f : A → B) (w : World)
    → Returns Holds p w (m w)
    → ((a : A) → Holds a → HoldsThen (f a))
    → Returns HoldsThen p w ((m >>= λ a. return (f a)) w)
Returns-map Holds HoldsThen p m f w r h = record {
  value = f r.value;
  after = r.after;
  equation = rw r.equation refl;
  holds = h r.value r.holds;
  settles = r.settles;
}

-- The same from another world with the same records.
pub Returns-from {ℓ} :
    {A : Type ℓ} (Holds : A → Type 0) (p : ℕ → Bool) (w w' : World) (result : Option (A × World))
    → w'.db.records ≡ w.db.records
    → Returns Holds p w' result
    → Returns Holds p w result
Returns-from Holds p w w' result e r = record {
  value = r.value;
  after = r.after;
  equation = r.equation;
  holds = r.holds;
  settles = subst (λ l. Settles p l r.after.db.records) e r.settles;
}

-- What a cycle relies on: fetchers return well-formed addresses and do not panic, nor do the
-- providers, and a loop over a map visits its keys and no others.
pub record IsOrderly (env : Env) : Type 0 where
  pub get_ip_returns : (version : IpVersion) (t : ℕ) → env.get_ip version t ≢ panic
  pub get_ip-IsAddr :
      (version : IpVersion) (t : ℕ) (a : Addr) → env.get_ip version t ≡ ok a → IsAddr a
  pub provider_returns : (p : Provider) (ip : Addr) (t : ℕ) → env.provider_update p ip t ≢ panic
  pub visits : (t : ℕ) (ids : List ℕ) (i : ℕ) → has_id (env.visit t ids) i ≡ has_id ids i

-- A suffix that is not set, or an IPv6 prefix.
abbrev pub IsSuffix : Prefix → Type 0
IsSuffix no_prefix = Unit
IsSuffix (prefix invalid n) = ⊥
IsSuffix (prefix (v4 b) n) = ⊥
IsSuffix (prefix (v6 b z) n) = (length b ≡ 16) × (n ≤ 128)

suffixed :
    (ip : Addr) (s : Prefix)
    → IsAddr ip
    → IsSuffix s
    → (a : Addr) × (ipv6_with_suffix ip s ≡ some a)
unfolding ipv6_with_suffix
suffixed invalid no_prefix h k = (invalid, refl)
suffixed (v4 c) no_prefix h k = (v4 c, refl)
suffixed (v6 c y) no_prefix h k = (v6 c y, refl)
suffixed ip (prefix invalid n) h k = absurd k
suffixed ip (prefix (v4 b) n) h k = absurd k
suffixed invalid (prefix (v6 b z) n) h k = (invalid, refl)
suffixed (v4 c) (prefix (v6 b z) n) h k = (v4 c, refl)
suffixed (v6 c y) (prefix (v6 b z) n) h k = (_, ipv6_with_suffix-v6 c y b z n h k.0 k.1)

pub with_suffix_returns :
    (r : Record) (ip : Addr)
    → IsAddr ip
    → IsSuffix r.provider.ipv6_suffix
    → (a : Addr) × (with_suffix r ip ≡ some a)
unfolding with_suffix
with_suffix_returns r ip h k = elim (Bool-cases (is6 ip)) [
  | inl b ↦ rw b (suffixed ip r.provider.ipv6_suffix h k)
  | inr b ↦ rw b (ip, refl)
]
