-- ===== src/Wire/Canonical.antt =====
-- The wire form of a context is its only one.
use Prim.Native.String.{len}
use app_module_sdk.Base.{
  ℕ, String, ◌≡◌, refl, sym, ap, ◌∙◌, ◌≢◌, inl, inr, true, false, Option, none, some, [], ◌∷◌, ◌==◌,
  ◌≤◌, arith, eqb, ltb, not, ◌||◌, length, eq_of_test, eq-false_of_ne, eq_refl, Option-cases,
}
use app_module_sdk.Wire.Values.{and_true, kept_if, kept_unless, not-false, some_injective}
use app_module_sdk.Wire.Shapes.{Invocation}
use app_module_sdk.Wire.Validate.{Bytes, Codec, validate}
use app_module_sdk.Wire.{
  max_bytes, max_header, equal, within, marshal, if_same, checked, parse, encode_header, with_raw,
  decode_bytes, decode_header,
}

eqb-path : (a b : ℕ) → eqb a b ≡ true → a ≡ b
eqb-path a b h = ground arith

equal-path : (xs ys : Bytes) → equal xs ys ≡ true → xs ≡ ys
unfolding equal
equal-path [] [] h = refl
equal-path [] (y ∷ ys) h = cc
equal-path (x ∷ xs) [] h = cc
equal-path (x ∷ xs) (y ∷ ys) h =
    let (head, tail) = and_true (eqb x y) (equal xs ys) h in
    let same : x ≡ y = eqb-path x y head in rw (same, equal-path xs ys tail)

-- A context in its wire form: valid, of at most `max_bytes` bytes, and what json.Marshal makes of it.
pub record IsWire (codec : Codec) (t : Invocation) (raw : Bytes) : Type 0 where
  pub is_valid : validate codec t ≡ true
  pub is_marshalled : codec.marshal t ≡ some raw
  pub is_bounded : length raw ≤ max_bytes

short_header : (value : String) → len value ≤ max_header → ltb max_header (len value) ≡ false
short_header value h = ground arith

within-some : (raw : Bytes) → length raw ≤ max_bytes → within max_bytes (some raw) ≡ some raw
within-some raw h = ground arith

module _ (codec : Codec) where
  if_same-some :
      (raw : Bytes) (t t' : Invocation) (o : Option Bytes)
      → if_same codec raw t o ≡ some t'
      → (t ≡ t') × (o ≡ some raw)
  if_same-some raw t t' none h = cc
  if_same-some raw t t' (some canonical) h =
      let (same, e) = kept_if (equal raw canonical) (some t) t' h in
      (some_injective e, ap (λ r. some r) (sym (equal-path raw canonical same)))

  checked-some :
      (raw : Bytes) (o : Option Invocation) (t : Invocation)
      → checked codec raw o ≡ some t
      → (validate codec t ≡ true) × (codec.marshal t ≡ some raw)
  unfolding checked
  checked-some raw none t h = cc
  checked-some raw (some t') t h =
      let (_, h') = kept_unless (not (codec.at_end raw)) _ t h in
      let (valid, h'') = kept_unless (not (validate codec t')) _ t h' in
      let (same, bytes) = if_same-some raw t' t (codec.marshal t') h'' in
      (rw (sym same) (not-false (validate codec t') valid), rw (sym same) bytes)

  parse-IsWire : (raw : Bytes) (t : Invocation) → parse codec raw ≡ some t → IsWire codec t raw
  unfolding parse
  parse-IsWire raw t h =
      let (small, h') = kept_unless (eqb (length raw) 0 || ltb max_bytes (length raw)) _ t h in
      let (valid, bytes) = checked-some raw (codec.decode raw) t h' in
      record { is_valid = valid; is_marshalled = bytes; is_bounded = ground arith }

  with_raw-some :
      (raw : Bytes) (o : Option Invocation) (t : Invocation) (raw' : Bytes)
      → with_raw codec raw o ≡ some (t, raw')
      → (o ≡ some t) × (raw ≡ raw')
  with_raw-some raw none t raw' h = cc
  with_raw-some raw (some t') t raw' h =
      (ap (λ p. some p.0) (some_injective h), ap (λ p. p.1) (some_injective h))

  decode_bytes-some :
      (value : String) (o : Option Bytes) (t : Invocation) (raw : Bytes)
      → decode_bytes codec value o ≡ some (t, raw)
      → (parse codec raw ≡ some t) × (codec.base64 raw ≡ value)
  unfolding decode_bytes
  decode_bytes-some value none t raw h = cc
  decode_bytes-some value (some raw') t raw h =
      let (text, h') = kept_unless (not (codec.base64 raw' == value)) _ (t, raw) h in
      let (parsed, same) = with_raw-some raw' (parse codec raw') t raw h' in
      let back = eq_of_test (codec.base64 raw') value (not-false _ text) in
      (rw same at parsed, rw same at back)

  encode_header-parse :
      (raw : Bytes) (t : Invocation)
      → parse codec raw ≡ some t
      → encode_header codec raw ≡ some (codec.base64 raw)
  unfolding encode_header
  encode_header-parse raw t h = rw h refl

  marshal-IsWire : (t : Invocation) (raw : Bytes) → IsWire codec t raw → marshal codec t ≡ some raw
  unfolding marshal
  marshal-IsWire t raw w = rw (w.is_valid, w.is_marshalled) (within-some raw w.is_bounded)

  decode_header-some :
      (value : String) (t : Invocation) (raw : Bytes)
      → decode_header codec value ≡ some (t, raw)
      → (parse codec raw ≡ some t) × (codec.base64 raw ≡ value)
  unfolding decode_header
  decode_header-some value t raw h =
      let (_, h') = kept_unless (value == "" || ltb max_header (len value)) _ (t, raw) h in
      decode_bytes-some value (codec.from_base64 value) t raw h'

  -- An accepted header is the only one for its context: where `DecodeHeader` gives a context and its
  -- bytes, the context is valid, the bytes are at most 6144, `Marshal` gives them back from the
  -- context, `EncodeHeader` gives the header back from them, and every header that decodes to the
  -- same context is the same text.
  pub decode_header_unique :
      (value : String) (t : Invocation) (raw : Bytes)
      → decode_header codec value ≡ some (t, raw)
      → (validate codec t ≡ true)
        × (length raw ≤ max_bytes)
        × (marshal codec t ≡ some raw)
        × (encode_header codec raw ≡ some value)
        × ((value' : String) (raw' : Bytes)
            → decode_header codec value' ≡ some (t, raw')
            → (value' ≡ value) × (raw' ≡ raw))
  decode_header_unique value t raw h =
      let (parsed, text) = decode_header-some value t raw h in
      let w = parse-IsWire raw t parsed in
      (
        w.is_valid,
        w.is_bounded,
        marshal-IsWire t raw w,
        encode_header-parse raw t parsed ∙ ap (λ v. some v) text,
        λ value' raw' h'.
            let (parsed', text') = decode_header-some value' t raw' h' in
            let w' = parse-IsWire raw' t parsed' in
            let same : raw' ≡ raw = some_injective (sym w'.is_marshalled ∙ w.is_marshalled) in
            (sym text' ∙ ap codec.base64 same ∙ text, same),
      )

  -- What `EncodeHeader` accepts comes back: where it gives a header for some bytes, `DecodeHeader` of
  -- the header gives those bytes, with the context that `Parse` gives for them. Conditions: base64
  -- decodes what it makes of these bytes, which is not empty and has at most 8192 characters.
  pub decode_header-encode_header :
      (raw : Bytes) (value : String)
      → codec.from_base64 (codec.base64 raw) ≡ some raw
      → codec.base64 raw ≢ ""
      → len (codec.base64 raw) ≤ max_header
      → encode_header codec raw ≡ some value
      → (t : Invocation) × (parse codec raw ≡ some t) × (decode_header codec value ≡ some (t, raw))
  unfolding encode_header decode_header decode_bytes
  decode_header-encode_header raw value back full short h = elim (Option-cases (parse codec raw)) [
    | inl e ↦ let bad : ◌≡◌ {A = Option String} none (some value) = rw e at h in cc
    | inr (t, e) ↦
        let same : codec.base64 raw ≡ value = some_injective (rw e at h) in
        (
          t,
          e,
          rw (sym same, eq-false_of_ne (codec.base64 raw) "" full, short_header _ short, back)
              (rw (eq_refl (codec.base64 raw), e) refl),
        )
  ]
