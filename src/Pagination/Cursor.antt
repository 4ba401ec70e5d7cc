-- ===== src/Pagination/Cursor.antt =====
-- Paginator.Encode and Decode of backend/internal/pagination/pagination.go. The packages
-- encoding/json, encoding/base64 and crypto/hmac are parameters: marshalling a value, the encoding
-- of bytes, and the hexadecimal signature of a payload under the paginator's key.
use team_manager.Base.{
  ℕ, ◌≡◌, ◌≢◌, refl, ap, ◌∙◌, Bool, true, false, not, [], ◌∷◌, ◌++◌, Option, none, some, In, inl,
  inr, ◌⊎◌, Option-cases, Bool-cases, Outcome, ok, err, if◌then◌else◌, ◌==◌, ==_iff, Bytes,
  bytes_eq, bytes_eq_iff, bytes_eq_refl, split_last, arith,
}

pub data CursorError : Type 0 where
  invalid_cursor marshal_failed : CursorError

-- The byte `.`
abbrev pub dot : ℕ
dot = 46

-- A Paginator and the library functions that it calls, for cursors of one type.
pub record Codec (C : Type 0) : Type 0 where
  pub hmac_key : Bytes
  pub sign : Bytes → Bytes
  pub marshal : C → Option Bytes
  pub unmarshal : Bytes → Option C
  pub encode_base64 : Bytes → Bytes
  pub decode_base64 : Bytes → Option Bytes

abbrev pub is_empty : Bytes → Bool
is_empty [] = true
is_empty (c ∷ cs) = false

module _ {C : Type 0} (p : Codec C) where
  unfoldable pub encode : C → Outcome CursorError Bytes
  encode v = elim (p.marshal v) [
    | none ↦ err marshal_failed
    | some b ↦
        let payload = p.encode_base64 b in
        if is_empty p.hmac_key then ok payload else ok (payload ++ (dot ∷ p.sign payload))
  ]

  unfoldable pub decode_payload : Bytes → Outcome CursorError (Option C)
  decode_payload payload = elim (p.decode_base64 payload) [
    | none ↦ err invalid_cursor
    | some b ↦ elim (p.unmarshal b) [ none ↦ err invalid_cursor | some v ↦ ok (some v) ]
  ]

  -- `ok none` is `(false, nil)`: start from the beginning.
  unfoldable pub decode : Bytes → Outcome CursorError (Option C)
  unfolding decode_payload
  decode [] = ok none
  decode (c ∷ cs) =
      if is_empty p.hmac_key then decode_payload (c ∷ cs) else elim (split_last dot (c ∷ cs)) [
        | none ↦ ok none
        | some (payload, sig) ↦
            if not (bytes_eq sig (p.sign payload)) then ok none else decode_payload payload
      ]

split_last-none : (xs : Bytes) → ¬ In dot xs → split_last dot xs ≡ none
unfolding split_last
split_last-none [] h = refl
split_last-none (x ∷ xs) h =
    ground (arith, split_last-none xs (λ i. h (inr i)), λ (e : dot ≡ x). h (inl e))

-- The last dot is the one before a signature without dots.
split_last-append :
    (payload sig : Bytes)
    → ¬ In dot sig
    → split_last dot (payload ++ (dot ∷ sig)) ≡ some (payload, sig)
unfolding split_last
split_last-append [] sig h = rw (split_last-none sig h)
split_last-append (x ∷ xs) sig h = rw (split_last-append xs sig h)

split_last-some :
    (xs before after : Bytes)
    → split_last dot xs ≡ some (before, after)
    → xs ≡ before ++ (dot ∷ after)
unfolding split_last
split_last-some [] before after h = cc
split_last-some (x ∷ xs) before after h =
    let rest = split_last-some xs in
    elim (Option-cases (split_last dot xs)) [
      | inl e ↦ elim (Bool-cases (x == dot)) [
        | inl q ↦
            let pair = some-injective ([], xs) (before, after) (rw (e, q) at h) in
            rw (← ap (λ (r : Bytes × Bytes). r.0) pair, ← ap (λ (r : Bytes × Bytes). r.1) pair)
              (ap (λ c. c ∷ xs) ((==_iff x dot).0 q))
        | inr q ↦ absurd (ground (arith, e, q))
      ]
      | inr (r, e) ↦
          let pair = some-injective (x ∷ r.0, r.1) (before, after) (rw e at h) in
          rw (← ap (λ (r : Bytes × Bytes). r.0) pair, ← ap (λ (r : Bytes × Bytes). r.1) pair)
            (ap (λ ys. x ∷ ys) (rest r.0 r.1 e))
    ]
  where
    some-injective :
        (a b : Bytes × Bytes) → ◌≡◌ {A = Option (Bytes × Bytes)} (some a) (some b) → a ≡ b
    some-injective a b q = cc

module _ {C : Type 0} (p : Codec C) where
  decode-nonempty :
      (token : Bytes)
      → token ≢ []
      → decode p token ≡ (
          if is_empty p.hmac_key then decode_payload p token else elim (split_last dot token) [
            | none ↦ ok none
            | some (payload, sig) ↦
                if not (bytes_eq sig (p.sign payload)) then ok none else decode_payload p payload
          ])
  unfolding decode
  decode-nonempty [] h = absurd (h refl)
  decode-nonempty (c ∷ cs) h = refl

  decode_payload-encode :
      (b : Bytes) (v : C)
      → p.decode_base64 (p.encode_base64 b) ≡ some b
      → p.unmarshal b ≡ some v
      → decode_payload p (p.encode_base64 b) ≡ ok (some v)
  unfolding decode_payload
  decode_payload-encode b v base64 json = ground (arith, base64, json)

  -- Decode gives back the value of every token that Encode makes, signed or not, if decoding base64
  -- undoes encoding, unmarshalling undoes marshalling, neither JSON nor its encoding is empty, and a
  -- hexadecimal signature has no dot.
  pub decode-encode :
      (v : C) (token : Bytes)
      → ((b : Bytes) → p.decode_base64 (p.encode_base64 b) ≡ some b)
      → ((b : Bytes) → p.marshal v ≡ some b → p.unmarshal b ≡ some v)
      → ((b : Bytes) → p.marshal v ≡ some b → p.encode_base64 b ≢ [])
      → ((payload : Bytes) → ¬ In dot (p.sign payload))
      → encode p v ≡ ok token
      → decode p token ≡ ok (some v)
  unfolding encode
  decode-encode v token base64 json nonempty hex h = elim (Option-cases (p.marshal v)) [
    | inl e ↦ absurd (ground (arith, e))
    | inr (b, e) ↦
        let payload : Bytes = p.encode_base64 b in
        elim (Bool-cases (is_empty p.hmac_key)) [
          | inl unsigned ↦
              let t : token ≡ payload = ground (arith, e, unsigned) in
              rw (
                t,
                decode-nonempty payload (nonempty b e),
                unsigned,
                decode_payload-encode b v (base64 b) (json b e),
              )
          | inr signed ↦
              let t : token ≡ payload ++ (dot ∷ p.sign payload) = ground (arith, e, signed) in
              rw (
                t,
                decode-nonempty (payload ++ (dot ∷ p.sign payload))
                    (append_dot payload (p.sign payload)),
                signed,
                split_last-append payload (p.sign payload) (hex payload),
                bytes_eq_refl (p.sign payload),
                decode_payload-encode b v (base64 b) (json b e),
              )
        ]
  ]
    where
      append_dot : (xs ys : Bytes) → xs ++ (dot ∷ ys) ≢ []
      append_dot [] ys q = cc
      append_dot (x ∷ xs) ys q = cc

  -- With a key, Decode yields a value only for a token that carries the signature of its payload,
  -- and takes every token that carries none for the start of the list, without an error.
  pub decode-signed :
      (token : Bytes)
      → is_empty p.hmac_key ≡ false
      → ((payload : Bytes) × (token ≡ payload ++ (dot ∷ p.sign payload))
          × (decode p token ≡ decode_payload p payload))
        ⊎ (decode p token ≡ ok none)
  unfolding decode
  decode-signed [] key = inr refl
  decode-signed (c ∷ cs) key = elim (Option-cases (split_last dot (c ∷ cs))) [
    | inl e ↦ inr (rw (key, e))
    | inr (r, e) ↦ elim (Bool-cases (bytes_eq r.1 (p.sign r.0))) [
      | inl q ↦ inl (
        r.0,
        split_last-some (c ∷ cs) r.0 r.1 e
            ∙ ap (λ s. r.0 ++ (dot ∷ s)) (bytes_eq_iff r.1 (p.sign r.0) q),
        rw (key, e, q),
      )
      | inr q ↦ inr (rw (key, e, q))
    ]
  ]
