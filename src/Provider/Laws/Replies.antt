-- ===== src/Provider/Laws/Replies.antt =====
-- Replies whose status is checked before their body is decoded: when they are taken.
use ddns_updater.Prelude.{
  if◌then◌else◌, Text, ℕ, ◌≡◌, refl, sym, ap, ◌∙◌, ◌≢◌, Bool, true, false, Option, none, some,
}
use ddns_updater.Result.{Result, ok, err}
use ddns_updater.Provider.{
  UpdateError, http_status_not_valid, Reply, not_created, not_done, unread, replied, after_status,
  decoding_body, received_no_result, creating_request, doing_request,
}

-- A reply that is taken: its status is not refused, and its body decodes to `document`.
pub record Decoded {D : Type 0} (refused : ℕ → Bool) (decode : Text → Option D) (reply : Reply)
    (document : D) : Type 0 where
  pub status : ℕ
  pub body : Text
  pub had : reply ≡ replied status body
  pub fine : refused status ≡ false
  pub decoded : decode body ≡ some document

abbrev err_of {ℓ} : (A : Type ℓ) → UpdateError → Result UpdateError A
err_of A e = err e

-- The failures of a reply that is not taken
abbrev pub is_untaken : UpdateError → Bool
is_untaken creating_request = true
is_untaken doing_request = true
is_untaken http_status_not_valid = true
is_untaken decoding_body = true
is_untaken _ = false

pub guard_ok {ℓ} :
    {A : Type ℓ} {a : A} (e : UpdateError) (b : Bool) (r : Result UpdateError A)
    → (if b then err e else r) ≡ ok a
    → (b ≡ false) × (r ≡ ok a)
guard_ok e true r h = cc
guard_ok e false r h = (refl, h)

module _ {ℓ} {A : Type ℓ} (t : Result UpdateError A) where
  pub guard_else :
      (e : UpdateError) (b : Bool) (r : Result UpdateError A)
      → t ≢ err e
      → (if b then err e else r) ≡ t
      → (b ≡ false) × (r ≡ t)
  guard_else e true r apart h = absurd (apart (sym h))
  guard_else e false r apart h = (refl, h)

  guarded :
      (e : UpdateError) (b : Bool) (r : Result UpdateError A)
      → b ≡ false
      → r ≡ t
      → (if b then err e else r) ≡ t
  guarded e b r h made = rw h made

module _ {ℓ} {A : Type ℓ} {D : Type 0} (refused : ℕ → Bool) (decode : Text → Option D)
    (f : Option D → Result UpdateError A) (undecoded : f none ≡ err decoding_body)
    (t : Result UpdateError A) where
  made_from :
      (o : Option D)
      → t ≢ err decoding_body
      → f o ≡ t
      → (document : D) × (o ≡ some document) × (f (some document) ≡ t)
  made_from none apart h = absurd (apart (sym h ∙ undecoded))
  made_from (some document) apart h = (document, refl, h)

  pub after_status-Decoded :
      (reply : Reply)
      → ((e : UpdateError) → is_untaken e ≡ true → t ≢ err e)
      → after_status refused (λ body. f (decode body)) reply ≡ t
      → (document : D) × Decoded refused decode reply document × (f (some document) ≡ t)
  unfolding after_status
  after_status-Decoded not_created apart h = absurd (apart creating_request refl (sym h))
  after_status-Decoded not_done apart h = absurd (apart doing_request refl (sym h))
  after_status-Decoded (unread status) apart h =
      let (fine, made) =
        guard_else t http_status_not_valid (refused status) (err decoding_body)
          (apart http_status_not_valid refl) h in
      absurd (apart decoding_body refl (sym made))
  after_status-Decoded (replied status body) apart h =
      let (fine, made) =
        guard_else t http_status_not_valid (refused status) (f (decode body))
          (apart http_status_not_valid refl) h in
      let (document, decoded, rest) = made_from (decode body) (apart decoding_body refl) made in
      (
        document,
        record { status = status; body = body; had = refl; fine = fine; decoded = decoded },
        rest,
      )

  pub after_status-of_Decoded :
      (reply : Reply) (document : D)
      → Decoded refused decode reply document
      → f (some document) ≡ t
      → after_status refused (λ body. f (decode body)) reply ≡ t
  after_status-of_Decoded reply document d made =
      ap (after_status refused (λ body. f (decode body))) d.had ∙ taken
    where
      taken : after_status refused (λ body. f (decode body)) (replied d.status d.body) ≡ t
      taken =
          unfold after_status in
          guarded t http_status_not_valid (refused d.status) (f (decode d.body)) d.fine
            (ap f d.decoded ∙ made)

pub ok-taken {ℓ} : {A : Type ℓ} (a : A) (e : UpdateError) → is_untaken e ≡ true → ok a ≢ err e
ok-taken a e untaken same = cc

pub no_result-taken {ℓ} :
    {A : Type ℓ} (e : UpdateError) → is_untaken e ≡ true → err_of A received_no_result ≢ err e
no_result-taken e untaken same = cc
