-- ===== src/Provider/Capitals.antt =====
-- internal/provider/utils/body.go: ASCII capitals in texts and in cleaned bodies.
use ddns_updater.IpVersion.{to_lower}
use ddns_updater.Provider.{clean_body}
use ddns_updater.Prelude.{
  leb, Text, has_prefix, trim_space, ℕ, ◌≡◌, refl, Bool, true, false, ◌&&◌, ◌||◌, [], ◌∷◌, ◌++◌,
  arith,
}

abbrev pub is_upper : ℕ → Bool
is_upper c = leb b'A' c && leb c b'Z'

-- Some byte is an ASCII capital.
abbrev pub has_upper : Text → Bool
has_upper [] = false
has_upper (c ∷ cs) = is_upper c || has_upper cs

has_upper-to_lower : (t : Text) → has_upper (to_lower t) ≡ false
unfolding to_lower
has_upper-to_lower [] = refl
has_upper-to_lower (c ∷ cs) = ground (arith, has_upper-to_lower cs)

has_upper-has_prefix :
    (s t : Text) → has_upper s ≡ false → has_upper t ≡ true → has_prefix s t ≡ false
unfolding has_prefix
has_upper-has_prefix s [] h k = cc
has_upper-has_prefix [] (d ∷ t) h k = refl
has_upper-has_prefix (c ∷ s) (d ∷ t) h k = ground (arith, has_upper-has_prefix s t)

-- A cleaned body begins with no text that has a capital.
pub clean_body-has_prefix :
    (body t : Text) → has_upper t ≡ true → has_prefix (clean_body body) t ≡ false
unfolding clean_body
clean_body-has_prefix body t h =
    has_upper-has_prefix (to_lower (trim_space body)) t (has_upper-to_lower (trim_space body)) h

pub has_upper-append : (s t : Text) → has_upper s ≡ true → has_upper (s ++ t) ≡ true
has_upper-append [] t h = cc
has_upper-append (c ∷ s) t h = ground (arith, has_upper-append s t)
