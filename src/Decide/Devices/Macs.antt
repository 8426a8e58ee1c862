-- ===== src/Decide/Devices/Macs.antt =====
-- Different addresses get different MACs.
use see_no_evil.Prelude.{ℕ, ◌/◌, ◌%◌, ◌≡◌, refl, ap, Option, none, some, arith, [], ◌++◌}
use see_no_evil.Text.{Text}
use see_no_evil.Decide.Devices.{hex_digit, hex, octets, mac_of, synthetic_mac_from_ip}

hex_digit_injective : (m n : ℕ) → hex_digit m ≡ hex_digit n → m ≡ n
hex_digit_injective m n e = ground arith

hex_injective : (m n : ℕ) (s t : Text) → hex m ++ s ≡ hex n ++ t → (m ≡ n) × (s ≡ t)
unfolding hex
hex_injective m n s t e =
    let high : hex_digit (m / 16) ≡ hex_digit (n / 16) = cc in
    let low : hex_digit (m % 16) ≡ hex_digit (n % 16) = cc in
    let rest : s ≡ t = cc in
    let high' : m / 16 ≡ n / 16 = hex_digit_injective (m / 16) (n / 16) high in
    let low' : m % 16 ≡ n % 16 = hex_digit_injective (m % 16) (n % 16) low in
    (omega (arith, high', low'), rest)

mac_of_injective :
    (o p : Option (ℕ × (ℕ × (ℕ × ℕ)))) (mac : Text)
    → mac_of o ≡ some mac
    → mac_of p ≡ some mac
    → o ≡ p
mac_of_injective none p mac e f = cc
mac_of_injective (some o) none mac e f = cc
mac_of_injective (some (a, (b, (c, d)))) (some (a', (b', (c', d')))) mac e f =
    let same : hex a ++ (hex b ++ (hex c ++ hex d)) ≡ hex a' ++ (hex b' ++ (hex c' ++ hex d')) =
      cc in
    let (ea, e₁) =
      hex_injective a a' (hex b ++ (hex c ++ hex d)) (hex b' ++ (hex c' ++ hex d')) same in
    let (eb, e₂) = hex_injective b b' (hex c ++ hex d) (hex c' ++ hex d') e₁ in
    let (ec, e₃) = hex_injective c c' (hex d) (hex d') e₂ in
    let (ed, e₄) = hex_injective d d' [] [] (ap (λ s. s ++ []) e₃) in rw (ea, eb, ec, ed) refl

-- Two addresses that get the same MAC have the same four octets.
pub synthetic_mac_from_ip-octets :
    (ip ip' mac : Text)
    → synthetic_mac_from_ip ip ≡ some mac
    → synthetic_mac_from_ip ip' ≡ some mac
    → octets ip ≡ octets ip'
unfolding synthetic_mac_from_ip
synthetic_mac_from_ip-octets ip ip' mac e f = mac_of_injective (octets ip) (octets ip') mac e f
