-- ===== src/Search/Encoding.antt =====
-- `encode_f32_vector`, `decode_f32_vector` and the signature. A component is the 32 bits of its f32;
-- the arithmetic of f64 is a parameter.
use super_mem.Base.{
  ℕ, zero, suc, ◌+◌, ◌*◌, ◌/◌, ◌%◌, ◌^◌, Bool, not, ◌||◌, List, [], ◌∷◌, ◌++◌, ltb, ◌==◌, length,
  if◌then◌else◌,
}
use super_mem.Store.Outcome.{Outcome, ok, invalid_input, ◌>>=◌, ◌>>◌, guard}

-- `f64::from`, the arithmetic, and the tests against zero.
pub record Doubles : Type 0 where
  pub widen : ℕ → ℕ
  pub add : ℕ → ℕ → ℕ
  pub sub : ℕ → ℕ → ℕ
  pub mul : ℕ → ℕ → ℕ
  pub sqrt : ℕ → ℕ
  pub is_negative : ℕ → Bool

pub record EncodedVector : Type 0 where
  pub float_le : List ℕ
  pub signature : List ℕ
  pub norm : ℕ

pub record DecodedVector : Type 0 where
  pub values : List ℕ
  pub norm : ℕ

unfoldable pub validate_expected_dimension : ℕ → Outcome (Unit {0})
validate_expected_dimension expected =
    guard (not (expected == 0 || ltb 4096 expected)) invalid_input

unfoldable pub validate_dimension : ℕ → ℕ → Outcome (Unit {0})
unfolding validate_expected_dimension
validate_dimension actual expected = do
  validate_expected_dimension expected
  guard (actual == expected) invalid_input

-- `f32::is_finite`: the exponent is not full.
abbrev pub is_finite : ℕ → Bool
is_finite bits = not (bits / 2 ^ 23 % 256 == 255)

-- Negative zero becomes zero.
abbrev pub canonical : ℕ → ℕ
canonical bits = if bits == 2 ^ 31 then 0 else bits

-- `f32::to_le_bytes` and `f32::from_le_bytes`.
abbrev pub le_bytes : ℕ → List ℕ
le_bytes bits = bits % 256 ∷ bits / 256 % 256 ∷ bits / 65536 % 256 ∷ bits / 16777216 % 256 ∷ []

abbrev pub of_le_bytes : ℕ → ℕ → ℕ → ℕ → ℕ
of_le_bytes a b c d = a + b * 256 + c * 65536 + d * 16777216

-- `^` of 64 bits, and `wrapping_mul`.
unfoldable pub xor_bits : ℕ → ℕ → ℕ → ℕ
xor_bits zero a b = 0
xor_bits (suc bits) a b = let rest = xor_bits bits (a / 2) (b / 2) in (a % 2 + b % 2) % 2 + 2 * rest

abbrev pub wrapping_mul : ℕ → ℕ → ℕ
wrapping_mul a b = a * b % 2 ^ 64

unfoldable pub mix64 : ℕ → ℕ
unfolding xor_bits
mix64 value =
    let once = wrapping_mul (xor_bits 64 value (value / 2 ^ 30)) 0xbf58476d1ce4e5b9 in
    let twice = wrapping_mul (xor_bits 64 once (once / 2 ^ 27)) 0x94d049bb133111eb in
    xor_bits 64 twice (twice / 2 ^ 31)

module _ (F : Doubles) where
  -- The inner loop of `random_hyperplane_signature`.
  unfoldable pub hyperplane_dot : ℕ → ℕ → ℕ → List ℕ → ℕ → ℕ
  unfolding mix64 xor_bits
  hyperplane_dot dimension bit index [] dot = dot
  hyperplane_dot dimension bit index (value ∷ values) dot =
      let random = mix64 (
        xor_bits 64
          (xor_bits 64 (xor_bits 64 0x6a09e667f3bcc909 (wrapping_mul dimension 0x9e3779b97f4a7c15))
            (wrapping_mul bit 0xbf58476d1ce4e5b9))
          (wrapping_mul index 0x94d049bb133111eb)) in
      hyperplane_dot dimension bit (suc index) values
        (if random % 2 == 0 then F.add dot (F.widen value) else F.sub dot (F.widen value))

  -- One byte of the signature, from the bit `start + count - 1` down; the lowest bit comes first.
  unfoldable pub signature_byte : List ℕ → ℕ → ℕ → ℕ
  unfolding hyperplane_dot
  signature_byte values start zero = 0
  signature_byte values start (suc count) =
      let rest = signature_byte values (suc start) count in
      (if F.is_negative (hyperplane_dot (length values) start 0 values 0) then 1 else 0) + 2 * rest

  unfoldable pub signature_bytes : List ℕ → ℕ → ℕ → List ℕ
  unfolding signature_byte
  signature_bytes values start zero = []
  signature_bytes values start (suc count) =
      signature_byte values start 8 ∷ signature_bytes values (start + 8) count

  unfoldable pub random_hyperplane_signature : List ℕ → List ℕ
  unfolding signature_bytes
  random_hyperplane_signature values = signature_bytes values 0 16

  -- `norm_squared += widened * widened`.
  abbrev pub add_square : ℕ → ℕ → ℕ
  add_square norm_squared value = F.add norm_squared (F.mul (F.widen value) (F.widen value))

  -- The loop of `encode_f32_vector`, on `float_le`, `canonical_values` and `norm_squared`.
  unfoldable pub encode_components : List ℕ → List ℕ → List ℕ → ℕ → Outcome (List ℕ × List ℕ × ℕ)
  encode_components [] float_le canonical_values norm_squared =
      ok (float_le, canonical_values, norm_squared)
  encode_components (value ∷ values) float_le canonical_values norm_squared =
      guard (is_finite value) invalid_input
      >> encode_components values (float_le ++ le_bytes (canonical value))
          (canonical_values ++ canonical value ∷ []) (add_square norm_squared (canonical value))

  unfoldable pub encode_f32_vector : List ℕ → ℕ → Outcome EncodedVector
  unfolding validate_dimension encode_components random_hyperplane_signature
  encode_f32_vector values expected = do
    validate_dimension (length values) expected
    encoded ← encode_components values [] [] 0
    guard (not (encoded.2 == 0)) invalid_input
    ok (record {
      float_le = encoded.0;
      signature = random_hyperplane_signature (encoded.1);
      norm = F.sqrt (encoded.2);
    })

  -- The loop of `decode_f32_vector` over `chunks_exact(4)`.
  unfoldable pub decode_components : List ℕ → List ℕ → ℕ → Outcome (List ℕ × ℕ)
  decode_components (a ∷ b ∷ c ∷ d ∷ rest) values norm_squared =
      let value = of_le_bytes a b c d in
      guard (is_finite value) invalid_input
      >> decode_components rest (values ++ canonical value ∷ [])
          (add_square norm_squared (canonical value))
  decode_components bytes values norm_squared = ok (values, norm_squared)

  unfoldable pub decode_f32_vector : List ℕ → ℕ → Outcome DecodedVector
  unfolding validate_expected_dimension decode_components
  decode_f32_vector float_le expected = do
    validate_expected_dimension expected
    guard (length float_le == expected * 4) invalid_input
    decoded ← decode_components float_le [] 0
    guard (not (decoded.1 == 0)) invalid_input
    ok (record { values = decoded.0; norm = F.sqrt (decoded.1) })
