-- ===== src/Server/Sessions.antt =====
-- When the admin mode is unlocked (internal/server/handler.go), over the history of its events.
use ddns_updater.Prelude.{
  ltb, leb, if◌then◌else◌, Bool-cases, Option-cases, Text, text_eq, text_eq_refl, text_eq_sound,
  is_empty, ◌+◌, ◌*◌, ◌≤◌, ◌≡◌, refl, sym, ◌∙◌, inl, inr, Bool, true, false, Option, none, some,
  List, [], ◌∷◌, arith,
}
use mathlib.Core.Option.{some_inj}
use ddns_updater.Times.{Time, hour}
use ddns_updater.Server.{
  AdminSessions, look_up, delete, is_admin_unlocked, issue_admin_session, clear_admin_session,
}

-- A session is issued at a time, a session is cleared, or a cookie is checked at a time.
pub data Event : Type 0 where
  issued : Text → Time → Event
  cleared : Text → Event
  checked : Text → Time → Event

abbrev pub step : Event → AdminSessions → AdminSessions
step (issued token t) sessions = issue_admin_session token t sessions
step (cleared token) sessions = clear_admin_session (some token) sessions
step (checked token t) sessions = (is_admin_unlocked true (some token) t sessions).1

-- The sessions after the events, the last event first.
abbrev pub sessions_after : List Event → AdminSessions
sessions_after [] = []
sessions_after (e ∷ earlier) = step e (sessions_after earlier)

-- When the session was last issued, if it was not cleared since.
abbrev pub last_issue : Text → List Event → Option Time
last_issue token [] = none
last_issue token (issued t time ∷ earlier) =
    if text_eq t token then some time else last_issue token earlier
last_issue token (cleared t ∷ earlier) = if text_eq t token then none else last_issue token earlier
last_issue token (checked t time ∷ earlier) = last_issue token earlier

nothing {ℓ} : {P : Type ℓ} (expiry : Time) → ◌≡◌ {A = Option Time} none (some expiry) → P
nothing expiry h = cc

locked {ℓ} : {P : Type ℓ} → false ≡ true → P
locked h = cc

-- Two keys, one of which is the token.
apart : (k t token : Text) → text_eq t k ≡ false → text_eq t token ≡ true → text_eq k token ≡ false
apart k t token b c = elim (Bool-cases (text_eq k token)) [
  | inl d ↦
      let same : t ≡ k = text_eq_sound t token c ∙ sym (text_eq_sound k token d) in
      let yes : text_eq t k ≡ true = rw same (text_eq_refl k) in locked (sym b ∙ yes)
  | inr d ↦ d
]

look_up-delete :
    (k token : Text) (sessions : AdminSessions)
    → look_up token (delete k sessions) ≡ (if text_eq k token then none else look_up token sessions)
unfolding look_up delete
look_up-delete k token [] = elim (Bool-cases (text_eq k token)) [
  | inl b ↦ rw b refl
  | inr b ↦ rw b refl
]
look_up-delete k token ((t, expiry) ∷ sessions) = elim (Bool-cases (text_eq t k)) [
  | inl b ↦ elim (Bool-cases (text_eq k token)) [
    | inl c ↦ rw (b, look_up-delete k token sessions, c) refl
    | inr c ↦
        let other : text_eq t token ≡ false = rw (text_eq_sound t k b) c in
        rw (b, look_up-delete k token sessions, c, other) refl
  ]
  | inr b ↦ elim (Bool-cases (text_eq t token)) [
    | inl c ↦ rw (b, c, apart k t token b c) refl
    | inr c ↦ rw (b, c, look_up-delete k token sessions) refl
  ]
]

deleted_keeps :
    (k token : Text) (expiry : Time) (sessions : AdminSessions)
    → look_up token (delete k sessions) ≡ some expiry
    → look_up token sessions ≡ some expiry
deleted_keeps k token expiry sessions h = elim (Bool-cases (text_eq k token)) [
  | inl b ↦ nothing expiry (rw (look_up-delete k token sessions, b) at h)
  | inr b ↦ rw (look_up-delete k token sessions, b) at h
]

check_keeps :
    (token k : Text) (t expiry : Time) (sessions : AdminSessions)
    → look_up token (is_admin_unlocked true (some k) t sessions).1 ≡ some expiry
    → look_up token sessions ≡ some expiry
unfolding is_admin_unlocked
check_keeps token k t expiry sessions h = elim (Bool-cases (is_empty k)) [
  | inl b ↦ rw b at h
  | inr b ↦ elim (Option-cases (look_up k sessions)) [
    | inl e ↦ rw (b, e) at h
    | inr (x, e) ↦ elim (Bool-cases (ltb x t)) [
      | inl c ↦ deleted_keeps k token expiry sessions (rw (b, e, c) at h)
      | inr c ↦ rw (b, e, c) at h
    ]
  ]
]

session_is_issued :
    (token : Text) (events : List Event) (expiry : Time)
    → look_up token (sessions_after events) ≡ some expiry
    → (time : Time) × (last_issue token events ≡ some time) × (expiry ≡ time + 12 * hour)
unfolding look_up issue_admin_session clear_admin_session
session_is_issued token [] expiry h = nothing expiry h
session_is_issued token (issued t time ∷ events) expiry h = elim (Bool-cases (text_eq t token)) [
  | inl b ↦ (time, rw b refl, sym (some_inj.0 (rw b at h)))
  | inr b ↦ rw b (session_is_issued token events expiry (rw b at h))
]
session_is_issued token (cleared t ∷ events) expiry h = elim (Bool-cases (text_eq t token)) [
  | inl b ↦ nothing expiry (rw (look_up-delete t token (sessions_after events), b) at h)
  | inr b ↦ rw b (
      session_is_issued token events expiry
        (rw (look_up-delete t token (sessions_after events), b) at h))
]
session_is_issued token (checked t time ∷ events) expiry h =
    session_is_issued token events expiry
      (check_keeps token t time expiry (sessions_after events) h)

-- After any events, the admin mode is unlocked for a cookie only if configuration editing is on and
-- the cookie is a session that was issued at most 12 hours ago and not cleared since.
pub unlocked_is_issued :
    (config_editable : Bool) (token : Text) (now : Time) (events : List Event)
    → (is_admin_unlocked config_editable (some token) now (sessions_after events)).0 ≡ true
    → (config_editable ≡ true)
      × ((time : Time) × (last_issue token events ≡ some time) × (now ≤ time + 12 * hour))
unfolding is_admin_unlocked
unlocked_is_issued false token now events h = locked h
unlocked_is_issued true token now events h = elim (Bool-cases (is_empty token)) [
  | inl b ↦ locked (rw b at h)
  | inr b ↦ elim (Option-cases (look_up token (sessions_after events))) [
    | inl e ↦ locked (rw (b, e) at h)
    | inr (x, e) ↦ elim (Bool-cases (ltb x now)) [
      | inl c ↦ locked (rw (b, e, c) at h)
      | inr c ↦
          let (time, last, same) = session_is_issued token events x e in
          (refl, (time, last, ground arith))
    ]
  ]
]

-- A session with a token that is not empty unlocks the admin mode from its issue on for 12 hours, if
-- configuration editing is on, and not later; once it is cleared, it unlocks at no time.
pub issued_unlocks :
    (token : Text) (time now : Time) (sessions : AdminSessions)
    → is_empty token ≡ false
    → let unlocked = λ (s : AdminSessions). (is_admin_unlocked true (some token) now s).0 in
      (unlocked (issue_admin_session token time sessions) ≡ leb now (time + 12 * hour))
      × (unlocked (clear_admin_session (some token) (issue_admin_session token time sessions))
          ≡ false)
unfolding is_admin_unlocked issue_admin_session clear_admin_session look_up
issued_unlocks token time now sessions h = (
  rw (h, text_eq_refl token) (ground arith),
  rw (h, look_up-delete token token ((token, time + 12 * hour) ∷ sessions), text_eq_refl token)
      refl,
)
