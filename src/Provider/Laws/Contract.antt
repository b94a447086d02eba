-- ===== src/Provider/Laws/Contract.antt =====
-- internal/provider/provider.go: the contract of an Update, and how the helpers that the clients share
-- meet it.
use ddns_updater.Prelude.{
  ◌==◌, Text, bytes, ℕ, ◌≡◌, refl, sym, ap, ◌∙◌, Bool, true, false, ◌||◌, Option, none, some, List,
  [], ◌∷◌, arith,
}
use ddns_updater.Result.{Result, ok}
use ddns_updater.Netip.{Addr, addr_eq_sound}
use ddns_updater.Netip.Print.{addr_string}
use ddns_updater.Provider.{
  Field, text_of, number_of, flag_of, texts_of, form, json, no_body, Body, get_value, Values,
  UpdateError, Client, Reply, Request, unread, replied, not_created, not_done, read_reply,
  read_status, clean_body, expect_first, Body, get_value, Values,
}

-- The HTTP status of a reply, whether its body is read or not.
abbrev pub status_of : Reply → Option ℕ
status_of not_created = none
status_of not_done = none
status_of (unread status) = some status
status_of (replied status body) = some status

-- A status of those that report success.
abbrev pub is_success : ℕ → Bool
is_success status = status == 200 || status == 201 || status == 204

abbrev pub text_fields : List (Text × Field) → Values
text_fields [] = []
text_fields ((k, text_of t) ∷ fields) = (k, t) ∷ text_fields fields
text_fields ((k, number_of n) ∷ fields) = text_fields fields
text_fields ((k, flag_of b) ∷ fields) = text_fields fields
text_fields ((k, texts_of ts) ∷ fields) = text_fields fields

-- The parameters of a request, in its URL, in its form, or as the texts in its JSON object.
abbrev pub parameters : Body → Values → Values
parameters no_body query = query
parameters (form values) query = values
parameters (json fields) query = text_fields fields

-- A request that tells the address.
abbrev pub Carries : Addr → Request → Type 0
Carries ip request =
    (key : Text) × (get_value key (parameters request.body request.query) ≡ some (addr_string ip))

-- The contract: an Update that succeeds returns the address it was given, and rests on the reply to one
-- request over https, in that it succeeds with every client that gives this reply: with a status of
-- success where it is `strict`, to a request that carries the address where it `sends` it.
pub record Confirmed (strict sends : Bool) (update : Client → Addr → Result UpdateError Addr)
    (client : Client) (ip a : Addr) : Type 0 where
  pub same : a ≡ ip
  pub request : Request
  pub status : ℕ
  pub answered : status_of (client 0 request) ≡ some status
  pub success : strict ≡ true → is_success status ≡ true
  pub secure : request.scheme ≡ bytes "https"
  pub sent : sends ≡ true → Carries ip request
  pub rests : (other : Client) → other 0 request ≡ client 0 request → update other ip ≡ ok a

abbrev pub Confirms : Bool → Bool → (Client → Addr → Result UpdateError Addr) → Type 0
Confirms strict sends update =
    (client : Client) (ip a : Addr)
    → update client ip ≡ ok a
    → Confirmed strict sends update client ip a

-- What an answer to the status and the cleaned body owes, and one to the status alone.
abbrev pub Answers : Addr → (ℕ → Text → Result UpdateError Addr) → Type 0
Answers ip f =
    (status : ℕ) (s : Text) (a : Addr) → f status s ≡ ok a → (a ≡ ip) × (is_success status ≡ true)

abbrev pub AnswersStatus : Addr → (ℕ → Result UpdateError Addr) → Type 0
AnswersStatus ip f =
    (status : ℕ) (a : Addr) → f status ≡ ok a → (a ≡ ip) × (is_success status ≡ true)

-- What an answer to a whole reply owes.
abbrev pub AnswersReply : Addr → (Reply → Result UpdateError Addr) → Type 0
AnswersReply ip f =
    (r : Reply) (a : Addr)
    → f r ≡ ok a
    → (a ≡ ip) × ((status : ℕ) × ((status_of r ≡ some status) × (is_success status ≡ true)))

read_reply-AnswersReply :
    (ip : Addr) (f : ℕ → Text → Result UpdateError Addr)
    → Answers ip f
    → AnswersReply ip (read_reply f)
unfolding read_reply
read_reply-AnswersReply ip f answers not_created a h = cc
read_reply-AnswersReply ip f answers not_done a h = cc
read_reply-AnswersReply ip f answers (unread status) a h = cc
read_reply-AnswersReply ip f answers (replied status body) a h =
    let (same, success) = answers status (clean_body body) a h in (same, (status, (refl, success)))

read_status-AnswersReply :
    (ip : Addr) (f : ℕ → Result UpdateError Addr)
    → AnswersStatus ip f
    → AnswersReply ip (read_status f)
unfolding read_status
read_status-AnswersReply ip f answers not_created a h = cc
read_status-AnswersReply ip f answers not_done a h = cc
read_status-AnswersReply ip f answers (unread status) a h =
    let (same, success) = answers status a h in (same, (status, (refl, success)))
read_status-AnswersReply ip f answers (replied status body) a h =
    let (same, success) = answers status a h in (same, (status, (refl, success)))

module _ (sends : Bool) (update : Client → Addr → Result UpdateError Addr) (client : Client)
    (ip a : Addr) (request : Request) (https : request.scheme ≡ bytes "https")
    (carries : sends ≡ true → Carries ip request) where
  confirmed :
      (strict : Bool) (f : Reply → Result UpdateError Addr)
      → ((c : Client) → update c ip ≡ f (c 0 request))
      → ((r : Reply) (b : Addr)
          → f r ≡ ok b
          → (b ≡ ip)
            × ((status : ℕ) × ((status_of r ≡ some status)
                  × (strict ≡ true → is_success status ≡ true))))
      → update client ip ≡ ok a
      → Confirmed strict sends update client ip a
  confirmed strict f shape answers h =
      let (same, (status, (answered, success))) =
        answers (client 0 request) a (sym (shape client) ∙ h) in
      record {
        same = same;
        request = request;
        status = status;
        answered = answered;
        success = success;
        secure = https;
        sent = carries;
        rests = λ other e. shape other ∙ ap f e ∙ sym (shape client) ∙ h;
      }

  pub reply-Confirmed :
      (f : Reply → Result UpdateError Addr)
      → ((c : Client) → update c ip ≡ f (c 0 request))
      → AnswersReply ip f
      → update client ip ≡ ok a
      → Confirmed true sends update client ip a
  reply-Confirmed f shape answers = confirmed true f shape with_flag
    where
      with_flag :
          (r : Reply) (b : Addr)
          → f r ≡ ok b
          → (b ≡ ip)
            × ((status : ℕ) × ((status_of r ≡ some status)
                  × (true ≡ true → is_success status ≡ true)))
      with_flag r b k =
          let (same, (status, (answered, success))) = answers r b k in
          (same, (status, (answered, λ e. success)))

  pub read_reply-Confirmed :
      (f : ℕ → Text → Result UpdateError Addr)
      → ((c : Client) → update c ip ≡ read_reply f (c 0 request))
      → Answers ip f
      → update client ip ≡ ok a
      → Confirmed true sends update client ip a
  read_reply-Confirmed f shape answers =
      reply-Confirmed (read_reply f) shape (read_reply-AnswersReply ip f answers)

  pub read_status-Confirmed :
      (f : ℕ → Result UpdateError Addr)
      → ((c : Client) → update c ip ≡ read_status f (c 0 request))
      → AnswersStatus ip f
      → update client ip ≡ ok a
      → Confirmed true sends update client ip a
  read_status-Confirmed f shape answers =
      reply-Confirmed (read_status f) shape (read_status-AnswersReply ip f answers)

  -- The same for an answer that does not look at the status.
  pub read_reply-loose :
      (f : ℕ → Text → Result UpdateError Addr)
      → ((c : Client) → update c ip ≡ read_reply f (c 0 request))
      → ((status : ℕ) (s : Text) (b : Addr) → f status s ≡ ok b → b ≡ ip)
      → update client ip ≡ ok a
      → Confirmed false sends update client ip a
  unfolding read_reply
  read_reply-loose f shape answers = confirmed false (read_reply f) shape by_reply
    where
      by_reply :
          (r : Reply) (b : Addr)
          → read_reply f r ≡ ok b
          → (b ≡ ip)
            × ((status : ℕ) × ((status_of r ≡ some status)
                  × (false ≡ true → is_success status ≡ true)))
      by_reply not_created b h = cc
      by_reply not_done b h = cc
      by_reply (unread status) b h = cc
      by_reply (replied status body) b h =
          (answers status (clean_body body) b h, (status, (refl, λ e. cc)))

pub expect_first-ok : (ip : Addr) (ips : List Addr) (a : Addr) → expect_first ip ips ≡ ok a → a ≡ ip
unfolding expect_first
expect_first-ok ip [] a h = cc
expect_first-ok ip (b ∷ ips) a h = ground (arith, addr_eq_sound ip b)
