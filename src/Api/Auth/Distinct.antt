-- ===== src/Api/Auth/Distinct.antt =====
-- A signed message determines the request.
use lumendark.Common.{◌≡◌, refl, sym, ap, ◌∙◌, ◌∷◌, ◌++◌, some, ℤ, arith}
use mathlib.Core.List.{append_assoc}
use lumendark.Texts.{Text, str, parse_int, parse_int-str, str-avoids}
use lumendark.Texts.Fields.{Avoids, append-separator_left, append-separator_right}
use lumendark.Api.Auth.{Crypto, create_sign_message}

str-injective : (m n : ℤ) → str m ≡ str n → m ≡ n
str-injective m n e =
    let p : some m ≡ some n = sym (parse_int-str m) ∙ ap parse_int e ∙ parse_int-str n in cc

-- Where neither method nor any SHA-256 text contains the separator, two requests with the same
-- message to sign have the same method, path, body digest and timestamp, also where a path
-- contains the separator.
pub create_sign_message-injective :
    {Key : Type 0} (crypto : Crypto Key) (method path body method' path' body' : Text) (t t' : ℤ)
    → ((text : Text) → Avoids b'|' (crypto.sha256 text))
    → Avoids b'|' method
    → Avoids b'|' method'
    → create_sign_message crypto method path body t
      ≡ create_sign_message crypto method' path' body' t'
    → (method ≡ method') × (path ≡ path') × (crypto.sha256 body ≡ crypto.sha256 body') × (t ≡ t')
unfolding create_sign_message
create_sign_message-injective crypto method path body method' path' body' t t' plain h h' e =
    let (m, rest) = append-separator_left b'|' method method' _ _ h h' e in
    let (front, stamp) =
      append-separator_right b'|' (path ++ b'|' ∷ crypto.sha256 body)
        (path' ++ b'|' ∷ crypto.sha256 body') (str t) (str t')
        (str-avoids b'|' t refl (λ q. omega (arith, q)))
        (str-avoids b'|' t' refl (λ q. omega (arith, q)))
        (append_assoc path (b'|' ∷ crypto.sha256 body) (b'|' ∷ str t)
          ∙ rest
          ∙ sym (append_assoc path' (b'|' ∷ crypto.sha256 body') (b'|' ∷ str t'))) in
    let (p, digest) = append-separator_right b'|' path path' _ _ (plain body) (plain body') front in
    (m, p, digest, str-injective t t' stamp)
