-- ===== src/Networking/MacLaws.antt =====
-- The hardware addresses that pkg/networking/networking/mac.go makes from IPv4 addresses.
use virtnet.Prelude.{
  ℕ, zero, suc, ◌/◌, ◌%◌, ◌^◌, ◌≤◌, ◌<◌, ◌≡◌, refl, sym, ◌∙◌, [], ◌∷◌, ◌++◌, Text, Outcome, ok,
  arith,
}
use virtnet.Ip.{v4}
use virtnet.Networking.Mac.{
  byte_list, hex_digit, hex_encode, buffer, pairs, join, convert_hex_to_mac, inet_aton,
}

byte_list-suc :
    (fuel n : ℕ) → 0 < n → byte_list (suc fuel) n ≡ byte_list fuel (n / 256) ++ n % 256 ∷ []
unfolding byte_list
byte_list-suc fuel n h = ground arith

byte_list_zero : (fuel : ℕ) → byte_list fuel 0 ≡ []
unfolding byte_list
byte_list_zero zero = refl
byte_list_zero (suc fuel) = refl

-- An address with four bytes.
byte_list-four :
    (n : ℕ)
    → 2 ^ 24 ≤ n
    → n < 2 ^ 32
    → byte_list 16 n ≡ n / 256 / 256 / 256 ∷ n / 256 / 256 % 256 ∷ n / 256 % 256 ∷ n % 256 ∷ []
byte_list-four n lo hi =
    let zero4 : n / 256 / 256 / 256 / 256 ≡ 0 = omega arith in
    let top : n / 256 / 256 / 256 % 256 ≡ n / 256 / 256 / 256 = omega arith in
    rw
      (
        byte_list-suc 15 n (omega arith),
        byte_list-suc 14 (n / 256) (omega arith),
        byte_list-suc 13 (n / 256 / 256) (omega arith),
        byte_list-suc 12 (n / 256 / 256 / 256) (omega arith),
        zero4,
        byte_list_zero 12,
        top,
      )
      refl

-- The text of four bytes.
abbrev mac_text : ℕ → ℕ → ℕ → ℕ → Text
mac_text a b c d =
    hex_digit (a / 16)
    ∷ hex_digit (a % 16)
    ∷ b':'
    ∷ hex_digit (b / 16)
    ∷ hex_digit (b % 16)
    ∷ b':'
    ∷ hex_digit (c / 16)
    ∷ hex_digit (c % 16)
    ∷ b':'
    ∷ hex_digit (d / 16)
    ∷ hex_digit (d % 16)
    ∷ []

inet_aton-text :
    (n : ℕ)
    → 2 ^ 24 ≤ n
    → n < 2 ^ 32
    → inet_aton (v4 n)
      ≡ ok (mac_text (n / 256 / 256 / 256) (n / 256 / 256 % 256) (n / 256 % 256) (n % 256))
unfolding inet_aton hex_encode buffer convert_hex_to_mac pairs join
inet_aton-text n lo hi = rw (byte_list-four n lo hi) refl

hex_digit_injective : (x y : ℕ) → x < 16 → y < 16 → hex_digit x ≡ hex_digit y → x ≡ y
unfolding hex_digit
hex_digit_injective x y p q h = ground arith

byte_injective :
    (a b : ℕ)
    → a < 256
    → b < 256
    → hex_digit (a / 16) ≡ hex_digit (b / 16)
    → hex_digit (a % 16) ≡ hex_digit (b % 16)
    → a ≡ b
byte_injective a b p q h k =
    let front = hex_digit_injective (a / 16) (b / 16) (omega arith) (omega arith) h in
    let back = hex_digit_injective (a % 16) (b % 16) (omega arith) (omega arith) k in omega arith

mac_text_injective :
    (a b c d a1 b1 c1 d1 : ℕ)
    → a < 256
    → b < 256
    → c < 256
    → d < 256
    → a1 < 256
    → b1 < 256
    → c1 < 256
    → d1 < 256
    → Path (Outcome Text) (ok (mac_text a b c d)) (ok (mac_text a1 b1 c1 d1))
    → (a ≡ a1) × (b ≡ b1) × (c ≡ c1) × (d ≡ d1)
mac_text_injective a b c d a1 b1 c1 d1 pa pb pc pd qa qb qc qd h =
    let a_front : hex_digit (a / 16) ≡ hex_digit (a1 / 16) = cc in
    let a_back : hex_digit (a % 16) ≡ hex_digit (a1 % 16) = cc in
    let b_front : hex_digit (b / 16) ≡ hex_digit (b1 / 16) = cc in
    let b_back : hex_digit (b % 16) ≡ hex_digit (b1 % 16) = cc in
    let c_front : hex_digit (c / 16) ≡ hex_digit (c1 / 16) = cc in
    let c_back : hex_digit (c % 16) ≡ hex_digit (c1 % 16) = cc in
    let d_front : hex_digit (d / 16) ≡ hex_digit (d1 / 16) = cc in
    let d_back : hex_digit (d % 16) ≡ hex_digit (d1 % 16) = cc in
    (
      byte_injective a a1 pa qa a_front a_back,
      byte_injective b b1 pb qb b_front b_back,
      byte_injective c c1 pc qc c_front c_back,
      byte_injective d d1 pd qd d_front d_back,
    )

-- Different IPv4 addresses from 1.0.0.0 on get different suffixes of hardware addresses.
pub inet_aton_injective :
    (m n : ℕ)
    → 2 ^ 24 ≤ m
    → m < 2 ^ 32
    → 2 ^ 24 ≤ n
    → n < 2 ^ 32
    → inet_aton (v4 m) ≡ inet_aton (v4 n)
    → m ≡ n
inet_aton_injective m n mlo mhi nlo nhi h =
    let texts = sym (inet_aton-text m mlo mhi) ∙ h ∙ inet_aton-text n nlo nhi in
    let same =
      mac_text_injective (m / 256 / 256 / 256) (m / 256 / 256 % 256) (m / 256 % 256) (m % 256)
        (n / 256 / 256 / 256) (n / 256 / 256 % 256) (n / 256 % 256) (n % 256) (omega arith)
        (omega arith) (omega arith) (omega arith) (omega arith) (omega arith) (omega arith)
        (omega arith) texts in
    omega (arith, same)
