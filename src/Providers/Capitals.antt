-- ===== src/Providers/Capitals.antt =====
-- internal/provider/providers/strato/provider.go and goip/provider.go: the replies that are compared
-- with a text that has a capital, after ReadAndCleanBody made them lower case.
use ddns_updater.Prelude.{Text, bytes, has_prefix, ◌≡◌, refl, ◌≢◌, true, ◌++◌, arith}
use ddns_updater.Result.{ok, err}
use ddns_updater.Netip.{Addr}
use ddns_updater.Domain.{build_domain_name}
use ddns_updater.Netip.Print.{addr_string}
use ddns_updater.Provider.{
  Client, Reply, auth, not_created, not_done, unread, replied, clean_body, read_reply,
  unknown_response,
}
use ddns_updater.Provider.Capitals.{has_upper, clean_body-has_prefix, has_upper-append}
use ddns_updater.Providers.Strato
use ddns_updater.Providers.Strato.{Strato}
use ddns_updater.Providers.Goip
use ddns_updater.Providers.Goip.{Goip}

-- The text that stands in the code in place of the constant
literal-upper : has_upper (bytes "constants.Badauth") ≡ true
unfolding bytes
literal-upper = refl

reply-ne-auth : (ip : Addr) (r : Reply) → read_reply (Strato.classify ip) r ≢ err auth
unfolding read_reply Strato.classify
reply-ne-auth ip not_created h = cc
reply-ne-auth ip not_done h = cc
reply-ne-auth ip (unread status) h = cc
reply-ne-auth ip (replied status body) h =
    ground (arith, clean_body-has_prefix body (bytes "constants.Badauth") literal-upper)

badauth-unknown :
    (ip : Addr) (s : Text) → s ≡ bytes "badauth" → Strato.classify ip 200 s ≡ err unknown_response
unfolding Strato.classify has_prefix bytes
badauth-unknown ip s e = rw e refl

-- A reply with status 200 whose cleaned body is `badauth` makes Strato report an unknown response, and
-- no other reply either makes it report bad authentication.
pub strato-badauth :
    (p : Strato) (client other : Client) (ip : Addr) (body : Text)
    → client 0 (Strato.request p ip) ≡ replied 200 body
    → clean_body body ≡ bytes "badauth"
    → (Strato.update p client ip ≡ err unknown_response) × (Strato.update p other ip ≢ err auth)
unfolding Strato.update read_reply
strato-badauth p client other ip body e k = (
  rw e (badauth-unknown ip (clean_body body) k),
  reply-ne-auth ip (other 0 (Strato.request p ip)),
)

answer-ne-ok :
    (p : Goip) (ip a : Addr) (r : Reply)
    → has_upper (Goip.confirmation p ip) ≡ true
    → Goip.answer p ip r ≢ ok a
unfolding Goip.answer Goip.classify
answer-ne-ok p ip a not_created k h = cc
answer-ne-ok p ip a not_done k h = cc
answer-ne-ok p ip a (unread status) k h = ground arith
answer-ne-ok p ip a (replied status body) k h =
    ground (arith, clean_body-has_prefix body (Goip.confirmation p ip))

-- For a domain name with a capital, goip never confirms an update, whatever the service replies.
pub goip-capital :
    (p : Goip) (client : Client) (ip a : Addr)
    → has_upper (build_domain_name p.owner p.domain) ≡ true
    → Goip.update p client ip ≢ ok a
unfolding Goip.update Goip.confirmation
goip-capital p client ip a h = answer-ne-ok p ip a (client 0 (Goip.request p ip)) (
    has_upper-append (build_domain_name p.owner p.domain)
      (bytes " (" ++ (addr_string ip ++ bytes ")")) h)
