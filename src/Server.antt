-- ===== src/Server.antt =====
-- The admin sessions of internal/server: handler.go, and the handlers of api.go and update.go that
-- unlock, lock and force an update. A handler's response is the status that it writes.
pub mod Sessions
pub mod Settings
use ddns_updater.Prelude.{
  ltb, if◌then◌else◌, Text, text_eq, is_empty, ◌+◌, ◌*◌, Bool, true, false, not, Option, none, some,
  List, [], ◌∷◌,
}
use ddns_updater.Result.{Result, ok, err, panic}
use ddns_updater.Times.{Time, hour}

-- The map h.adminSessions, from tokens to their expiry.
abbrev pub AdminSessions : Type 0
AdminSessions = List (Text × Time)

unfoldable pub look_up : Text → AdminSessions → Option Time
look_up token [] = none
look_up token ((t, expiry) ∷ sessions) =
    if text_eq t token then some expiry else look_up token sessions

unfoldable pub delete : Text → AdminSessions → AdminSessions
delete token [] = []
delete token ((t, expiry) ∷ sessions) =
    if text_eq t token then delete token sessions else (t, expiry) ∷ delete token sessions

abbrev pub unlocked_until : Text → Time → Option Time → AdminSessions → Bool × AdminSessions
unlocked_until token now none sessions = (false, sessions)
unlocked_until token now (some expiry) sessions =
    if ltb expiry now then (false, delete token sessions) else (true, sessions)

-- isAdminUnlocked, with the value of the cookie, if there is one
unfoldable pub is_admin_unlocked : Bool → Option Text → Time → AdminSessions → Bool × AdminSessions
is_admin_unlocked config_editable none now sessions = (false, sessions)
is_admin_unlocked config_editable (some token) now sessions =
    if not config_editable
    then (false, sessions)
    else if is_empty token
    then (false, sessions)
    else unlocked_until token now (look_up token sessions) sessions

-- issueAdminSession, with the token that was drawn
unfoldable pub issue_admin_session : Text → Time → AdminSessions → AdminSessions
issue_admin_session token now sessions = (token, now + 12 * hour) ∷ sessions

-- clearAdminSession
unfoldable pub clear_admin_session : Option Text → AdminSessions → AdminSessions
clear_admin_session none sessions = sessions
clear_admin_session (some token) sessions = delete token sessions

pub data Response : Type 0 where
  succeeded bad_request unauthorized internal_error accepted : Response

-- adminUnlock, with what ParseForm, the password check and the drawing of a token come to
unfoldable pub admin_unlock :
    Bool → Bool → Result Text Bool → Option Text → Time → AdminSessions → Response × AdminSessions
admin_unlock config_editable form_ok matches token now sessions =
    if not config_editable
    then (bad_request, sessions)
    else if not form_ok
    then (bad_request, sessions)
    else after_check matches token
  where
    after_draw : Option Text → Response × AdminSessions
    after_draw none = (internal_error, sessions)
    after_draw (some t) = (succeeded, issue_admin_session t now sessions)

    after_check : Result Text Bool → Option Text → Response × AdminSessions
    after_check (ok true) drawn = after_draw drawn
    after_check (ok false) drawn = (unauthorized, sessions)
    after_check (err e) drawn = (internal_error, sessions)
    after_check panic drawn = (internal_error, sessions)

-- adminLock
unfoldable pub admin_lock : Option Text → AdminSessions → Response × AdminSessions
admin_lock cookie sessions = (succeeded, clear_admin_session cookie sessions)

abbrev pub after_update {ℓ} : {E : Type ℓ} → List E → Response
after_update [] = accepted
after_update (e ∷ errors) = internal_error

-- update (the handler), with the errors that a forced update returns; whether one was forced
unfoldable pub update {ℓ} :
    {E : Type ℓ}
    → Bool
    → Option Text
    → Time
    → List E
    → AdminSessions
    → (Response × Bool) × AdminSessions
update config_editable cookie now errors sessions =
    let (unlocked, sessions') = is_admin_unlocked config_editable cookie now sessions in
    if unlocked
    then ((after_update errors, true), sessions')
    else ((unauthorized, false), sessions')
