-- ===== src/Tests/Sessions.antt =====
-- The admin sessions (internal/server).
use ddns_updater.Prelude.{
  leb, Text, text_eq, ◌+◌, ◌*◌, ◌≤◌, ◌≡◌, refl, true, false, some, List, [], ◌∷◌,
}
use ddns_updater.Times.{Time, hour}
use ddns_updater.Server.{
  AdminSessions, is_admin_unlocked, issue_admin_session, clear_admin_session, look_up, delete,
}
use ddns_updater.Server.Sessions.{
  Event, issued, cleared, checked, sessions_after, last_issue, unlocked_is_issued, issued_unlocks,
}

abbrev token : Text
token = 7 ∷ []

abbrev other : Text
other = 8 ∷ []

-- Two sessions are issued, one of them is cleared and the other is checked.
abbrev history : List Event
history = checked token 30 ∷ cleared other ∷ issued other 20 ∷ issued token 10 ∷ []

still_unlocked : (is_admin_unlocked true (some token) 40 (sessions_after history)).0 ≡ true
unfolding is_admin_unlocked issue_admin_session clear_admin_session look_up delete text_eq
still_unlocked = refl

unlocked_is_issued_example :
    (true ≡ true)
    × ((time : Time) × (last_issue token history ≡ some time) × (40 ≤ time + 12 * hour))
unlocked_is_issued_example = unlocked_is_issued true token 40 history still_unlocked

issued_unlocks_example :
    let unlocked = λ (s : AdminSessions). (is_admin_unlocked true (some token) 40 s).0 in
    (unlocked (issue_admin_session token 10 []) ≡ leb 40 (10 + 12 * hour))
    × (unlocked (clear_admin_session (some token) (issue_admin_session token 10 [])) ≡ false)
issued_unlocks_example = issued_unlocks token 10 40 [] refl
