-- ===== src/Pool/Auth/Base64.antt =====
-- base64.StdEncoding: its encoding, and its decoding, which takes what is encoded back.
use victoriametrics_importer.Prelude.{
  ℕ, ◌+◌, ◌-◌, ◌*◌, ◌/◌, ◌%◌, ◌<◌, ◌≡◌, refl, ap, ap₂, ◌∙◌, false, List, [], ◌∷◌, ltb, ◌==◌,
  if◌then◌else◌, arith,
}

-- The digits A to Z, a to z, 0 to 9, + and /.
unfoldable pub digit : ℕ → ℕ
digit n =
    if ltb n 26
    then 65 + n
    else if ltb n 52
    then 71 + n
    else if ltb n 62
    then n - 4
    else if n == 62
    then 43
    else 47

abbrev pub pad : ℕ
pad = 61

unfoldable pub encode : List ℕ → List ℕ
encode [] = []
encode (a ∷ []) = digit (a / 4) ∷ digit (a % 4 * 16) ∷ pad ∷ pad ∷ []
encode (a ∷ b ∷ []) = digit (a / 4) ∷ digit (a % 4 * 16 + b / 16) ∷ digit (b % 16 * 4) ∷ pad ∷ []
encode (a ∷ b ∷ c ∷ rest) =
    digit (a / 4)
    ∷ digit (a % 4 * 16 + b / 16)
    ∷ digit (b % 16 * 4 + c / 64)
    ∷ digit (c % 64)
    ∷ encode rest

abbrev pub value : ℕ → ℕ
value d =
    if d == 43
    then 62
    else if d == 47
    then 63
    else if ltb d 58
    then d + 4
    else if ltb d 91
    then d - 65
    else d - 71

-- The bytes of four digits, the last two of which may be padding.
abbrev pub decode_four : (w x y z : ℕ) → List ℕ → List ℕ
decode_four w x y z rest =
    let a = value w * 4 + value x / 16 in
    let b = value x % 16 * 16 + value y / 4 in
    let c = value y % 4 * 64 + value z in
    if y == pad then a ∷ [] else if z == pad then a ∷ b ∷ [] else a ∷ b ∷ c ∷ rest

abbrev pub decode : List ℕ → List ℕ
decode [] = []
decode (w ∷ []) = []
decode (w ∷ x ∷ []) = []
decode (w ∷ x ∷ y ∷ []) = []
decode (w ∷ x ∷ y ∷ z ∷ ds) = decode_four w x y z (decode ds)

abbrev pub AllBytes : List ℕ → Type 0
AllBytes [] = Unit {0}
AllBytes (b ∷ bs) = b < 256 × AllBytes bs

value-digit : (n : ℕ) → n < 64 → value (digit n) ≡ n
unfolding digit
value-digit n h = ground arith

digit-pad : (n : ℕ) → n < 64 → (digit n == pad) ≡ false
unfolding digit
digit-pad n h = ground arith

decode_four-digits :
    (p q r s : ℕ) (rest : List ℕ)
    → p < 64
    → q < 64
    → r < 64
    → s < 64
    → decode_four (digit p) (digit q) (digit r) (digit s) rest
      ≡ (p * 4 + q / 16) ∷ (q % 16 * 16 + r / 4) ∷ (r % 4 * 64 + s) ∷ rest
decode_four-digits p q r s rest hp hq hr hs =
    rw
      (
        digit-pad r hr,
        digit-pad s hs,
        value-digit p hp,
        value-digit q hq,
        value-digit r hr,
        value-digit s hs,
      )
      refl

decode_four-two :
    (p q r : ℕ) (rest : List ℕ)
    → p < 64
    → q < 64
    → r < 64
    → decode_four (digit p) (digit q) (digit r) pad rest
      ≡ (p * 4 + q / 16) ∷ (q % 16 * 16 + r / 4) ∷ []
decode_four-two p q r rest hp hq hr =
    rw (digit-pad r hr, value-digit p hp, value-digit q hq, value-digit r hr) refl

decode_four-one :
    (p q : ℕ) (rest : List ℕ)
    → p < 64
    → q < 64
    → decode_four (digit p) (digit q) pad pad rest ≡ (p * 4 + q / 16) ∷ []
decode_four-one p q rest hp hq = rw (value-digit p hp, value-digit q hq) refl

first_byte : (a n : ℕ) → a < 256 → n < 16 → a / 4 * 4 + (a % 4 * 16 + n) / 16 ≡ a
first_byte a n h k = omega (arith, h, k)

second_byte :
    (m b n : ℕ) → m < 4 → b < 256 → n < 4 → (m * 16 + b / 16) % 16 * 16 + (b % 16 * 4 + n) / 4 ≡ b
second_byte m b n h k l = omega (arith, h, k, l)

third_byte : (m c : ℕ) → m < 16 → c < 256 → (m * 4 + c / 64) % 4 * 64 + c % 64 ≡ c
third_byte m c h k = omega (arith, h, k)

-- Decoding what was encoded gives the bytes back.
pub decode-encode : (bs : List ℕ) → AllBytes bs → decode (encode bs) ≡ bs
unfolding encode
decode-encode [] h = refl
decode-encode (a ∷ []) h =
    decode_four-one (a / 4) (a % 4 * 16) [] (omega (arith, h.0)) (omega arith)
    ∙ ap (λ x. x ∷ []) (omega (arith, first_byte a 0 h.0 (omega arith)))
decode-encode (a ∷ b ∷ []) h =
    decode_four-two (a / 4) (a % 4 * 16 + b / 16) (b % 16 * 4) [] (omega (arith, h.0))
      (omega (arith, h.1.0)) (omega arith)
    ∙ ap₂ (λ x y. x ∷ y ∷ []) (first_byte a (b / 16) h.0 (omega (arith, h.1.0)))
        (omega (arith, second_byte (a % 4) b 0 (omega arith) h.1.0 (omega arith)))
decode-encode (a ∷ b ∷ c ∷ rest) h =
    decode_four-digits (a / 4) (a % 4 * 16 + b / 16) (b % 16 * 4 + c / 64) (c % 64)
      (decode (encode rest)) (omega (arith, h.0)) (omega (arith, h.1.0)) (omega (arith, h.1.1.0))
      (omega arith)
    ∙ ap₂ (λ x y. x ∷ y ∷ ((b % 16 * 4 + c / 64) % 4 * 64 + c % 64) ∷ decode (encode rest))
        (first_byte a (b / 16) h.0 (omega (arith, h.1.0)))
        (second_byte (a % 4) b (c / 64) (omega arith) h.1.0 (omega (arith, h.1.1.0)))
    ∙ ap₂ (λ x y. a ∷ b ∷ x ∷ y) (third_byte (b % 16) c (omega arith) h.1.1.0)
        (decode-encode rest h.1.1.1)
