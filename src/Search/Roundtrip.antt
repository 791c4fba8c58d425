-- ===== src/Search/Roundtrip.antt =====
-- Decoding an encoded vector.
use mathlib.Core.Path.{subst}
use mathlib.Core.List.{append_assoc, append-nil}
use super_mem.Base.{
  ℕ, ◌*◌, ◌/◌, ◌%◌, ◌^◌, ◌<◌, ◌≡◌, refl, sym, ◌∙◌, ap, true, not, List, [], ◌∷◌, ◌++◌, arith, ◌==◌,
  length, map, All, Bool-cases, inl, inr,
}
use super_mem.Store.Outcome.{
  Outcome, ok, invalid_input, ◌>>◌, guard, ok_steps, guard_steps, check_steps, ok-injective,
  guard_passed,
}
use super_mem.Search.Encoding.{
  Doubles, EncodedVector, validate_expected_dimension, validate_dimension, is_finite, canonical,
  le_bytes, of_le_bytes, add_square, encode_components, encode_f32_vector, decode_components,
  decode_f32_vector, random_hyperplane_signature,
}

-- The four bytes of a component give it back.
of_le_bytes-le_bytes :
    (x : ℕ)
    → x < 2 ^ 32
    → of_le_bytes (x % 256) (x / 256 % 256) (x / 65536 % 256) (x / 16777216 % 256) ≡ x
of_le_bytes-le_bytes x h = omega arith

canonical_idempotent : (x : ℕ) → canonical (canonical x) ≡ canonical x
canonical_idempotent x = ground arith

canonical-is_finite : (x : ℕ) → is_finite x ≡ true → is_finite (canonical x) ≡ true
canonical-is_finite x h = elim (Bool-cases (x == 2 ^ 31)) [ inl e ↦ rw e refl | inr e ↦ rw e h ]

canonical-lt : (x : ℕ) → x < 2 ^ 32 → canonical x < 2 ^ 32
canonical-lt x h = ground arith

-- All bytes, and the norm, of the components.
abbrev bytes_of : List ℕ → List ℕ
bytes_of [] = []
bytes_of (v ∷ vs) = le_bytes (canonical v) ++ bytes_of vs

length-bytes_of : (vs : List ℕ) → length (bytes_of vs) ≡ length vs * 4
length-bytes_of [] = refl
length-bytes_of (v ∷ vs) = omega (arith, length-bytes_of vs)

module _ (F : Doubles) where
  abbrev squares : ℕ → List ℕ → ℕ
  squares n [] = n
  squares n (v ∷ vs) = squares (add_square F n (canonical v)) vs

  -- What the loop of the encoder gives where it gives anything.
  encode_components_lem :
      (vs f c : List ℕ) (n : ℕ) (result : List ℕ × List ℕ × ℕ)
      → encode_components F vs f c n ≡ ok result
      → (result.0 ≡ f ++ bytes_of vs)
        × (result.1 ≡ c ++ map canonical vs)
        × (result.2 ≡ squares n vs)
        × All (λ v. is_finite v ≡ true) vs
  unfolding encode_components
  encode_components_lem [] f c n result h =
      let same = ok-injective h in
      (
        ap (λ r. r.0) (sym same) ∙ sym (append-nil f),
        ap (λ r. r.1) (sym same) ∙ sym (append-nil c),
        ap (λ r. r.2) (sym same),
        tt,
      )
  encode_components_lem (v ∷ vs) f c n result h =
      let (finite, later) = guard_steps (is_finite v) invalid_input _ h in
      let (bytes, values, norm, rest) =
        encode_components_lem vs (f ++ le_bytes (canonical v)) (c ++ canonical v ∷ [])
          (add_square F n (canonical v)) result later in
      (
        bytes ∙ append_assoc f (le_bytes (canonical v)) (bytes_of vs),
        values ∙ append_assoc c (canonical v ∷ []) (map canonical vs),
        norm,
        (finite, rest),
      )

  decode_components-bytes_of :
      (vs c : List ℕ) (n : ℕ)
      → All (λ v. v < 2 ^ 32) vs
      → All (λ v. is_finite v ≡ true) vs
      → decode_components F (bytes_of vs) c n ≡ ok (c ++ map canonical vs, squares n vs)
  unfolding decode_components
  decode_components-bytes_of [] c n small finite = ap (λ u. ok (u, n)) (sym (append-nil c))
  decode_components-bytes_of (v ∷ vs) c n small finite =
      let x = canonical v in
      rw
        (
          of_le_bytes-le_bytes x (canonical-lt v small.0),
          canonical-is_finite v finite.0,
          canonical_idempotent v,
        )
        (decode_components-bytes_of vs (c ++ x ∷ []) (add_square F n x) small.1 finite.1
          ∙ ap (λ u. ok (u, squares (add_square F n x) vs))
              (append_assoc c (x ∷ []) (map canonical vs)))

  decode-bytes_of :
      (values : List ℕ) (dimension : ℕ)
      → validate_expected_dimension dimension ≡ ok tt
      → (length values == dimension) ≡ true
      → not (squares 0 values == 0) ≡ true
      → All (λ v. v < 2 ^ 32) values
      → All (λ v. is_finite v ≡ true) values
      → decode_f32_vector F (bytes_of values) dimension
        ≡ ok (record { values = map canonical values; norm = F.sqrt (squares 0 values) })
  unfolding decode_f32_vector
  decode-bytes_of values dimension bounded equal some_norm small finite =
      let size : (length (bytes_of values) == dimension * 4) ≡ true =
        ground (arith, length-bytes_of values) in
      rw (bounded, size, decode_components-bytes_of values [] 0 small finite, some_norm) refl

  -- A vector of f32 components that is encoded is decoded, with the same dimension, to its components, where negative
  -- zero has become zero, and to the same norm; this holds for every arithmetic of f64.
  pub decode-encode :
      (values : List ℕ) (dimension : ℕ) (e : EncodedVector)
      → All (λ v. v < 2 ^ 32) values
      → encode_f32_vector F values dimension ≡ ok e
      → decode_f32_vector F e.float_le dimension
        ≡ ok (record { values = map canonical values; norm = e.norm })
  unfolding encode_f32_vector decode_f32_vector validate_dimension
  decode-encode values dimension e small h =
      let (fits, s1) = check_steps (validate_dimension (length values) dimension) _ h in
      let (encoded, s2, made) = ok_steps finish (encode_components F values [] [] 0) s1 in
      let (some_norm, built) = guard_steps (not (encoded.2 == 0)) invalid_input _ s2 in
      let (bytes, canonicals, norm, finite) = encode_components_lem values [] [] 0 encoded made in
      let (bounded, equal) = check_steps (validate_expected_dimension dimension) _ fits in
      let same = ok-injective built in
      subst
        (λ u.
          decode_f32_vector F u dimension
          ≡ ok (record { values = map canonical values; norm = e.norm }))
        (sym bytes ∙ ap (λ r. r.float_le) same)
        (subst
          (λ n.
            decode_f32_vector F (bytes_of values) dimension
            ≡ ok (record { values = map canonical values; norm = n }))
          (ap (λ n. F.sqrt n) (sym norm) ∙ ap (λ r. r.norm) same)
          (decode-bytes_of values dimension bounded
            (guard_passed (length values == dimension) invalid_input equal)
            (subst (λ n. not (n == 0) ≡ true) norm some_norm) small finite))
    where
      finish : List ℕ × List ℕ × ℕ → Outcome EncodedVector
      finish encoded =
          guard (not (encoded.2 == 0)) invalid_input
          >> ok (record {
            float_le = encoded.0;
            signature = random_hyperplane_signature F (encoded.1);
            norm = F.sqrt (encoded.2);
          })
