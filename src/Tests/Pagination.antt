-- ===== src/Tests/Pagination.antt =====
-- Limits, tokens and pages (backend/internal/pagination).
use team_manager.Base.{
  ℕ, suc, ◌≤◌, ◌≡◌, ◌≢◌, refl, inl, inr, ◌⊎◌, Bool, true, false, List, [], ◌∷◌, ◌++◌, Option, none,
  some, In, ok, Bytes, ltb, length, arith, Outcome,
}
use team_manager.Pagination.Cursor.{
  Codec, dot, encode, decode, decode_payload, decode-encode, decode-signed,
}
use team_manager.Pagination.Keyset.{Ordered, list_page, walk, walk_complete}

-- A codec for cursors that are one number: JSON is the number after a byte 1, base64 adds a byte 9
-- in front, and every signature is the bytes 5 and 6.
abbrev codec : Codec ℕ
codec = record {
  hmac_key = 8 ∷ [];
  sign = λ payload. 5 ∷ 6 ∷ [];
  marshal = λ n. some (1 ∷ n ∷ []);
  unmarshal = second;
  encode_base64 = λ b. 9 ∷ b;
  decode_base64 = tail;
}
  where
    second : Bytes → Option ℕ
    second (x ∷ n ∷ []) = some n
    second _ = none

    tail : Bytes → Option Bytes
    tail [] = none
    tail (x ∷ xs) = some xs

token_of_3 : encode codec 3 ≡ ok (9 ∷ 1 ∷ 3 ∷ 46 ∷ 5 ∷ 6 ∷ [])
unfolding encode
token_of_3 = refl

-- A token whose signature is another one starts from the beginning.
tampered : decode codec (9 ∷ 1 ∷ 4 ∷ 46 ∷ 5 ∷ 7 ∷ []) ≡ ok none
unfolding decode team_manager.Base.split_last
tampered = refl

json_round_trip : (b : Bytes) → codec.marshal 3 ≡ some b → codec.unmarshal b ≡ some 3
json_round_trip b e = rw (← marshalled)
  where
    marshalled : 1 ∷ 3 ∷ [] ≡ b
    marshalled = cc e

not_empty : (b : Bytes) → codec.marshal 3 ≡ some b → codec.encode_base64 b ≢ []
not_empty b e q = cc q

no_dot : (payload : Bytes) → ¬ In dot (codec.sign payload)
no_dot payload (inl e) = omega (arith, e)
no_dot payload (inr (inl e)) = omega (arith, e)
no_dot payload (inr (inr i)) = elim i [ ]

decode-encode_example : decode codec (9 ∷ 1 ∷ 3 ∷ 46 ∷ 5 ∷ 6 ∷ []) ≡ ok (some 3)
decode-encode_example =
    decode-encode codec 3 (9 ∷ 1 ∷ 3 ∷ 46 ∷ 5 ∷ 6 ∷ []) (λ b. refl) json_round_trip not_empty no_dot
      token_of_3

decode-signed_example :
    ((payload : Bytes) × (9 ∷ 1 ∷ 3 ∷ 46 ∷ 5 ∷ 6 ∷ [] ≡ payload ++ (dot ∷ codec.sign payload))
      × (decode codec (9 ∷ 1 ∷ 3 ∷ 46 ∷ 5 ∷ 6 ∷ []) ≡ decode_payload codec payload))
    ⊎ (decode codec (9 ∷ 1 ∷ 3 ∷ 46 ∷ 5 ∷ 6 ∷ []) ≡ ok none)
decode-signed_example = decode-signed codec (9 ∷ 1 ∷ 3 ∷ 46 ∷ 5 ∷ 6 ∷ []) refl

-- Rows that are their own cursors, newest first.
abbrev itself : ℕ → ℕ
itself n = n

abbrev older : ℕ → ℕ → Bool
older c n = ltb n c

two_of_three : list_page itself older (9 ∷ 7 ∷ 4 ∷ []) 2 none ≡ (9 ∷ 7 ∷ [], some 7)
unfolding list_page
two_of_three = refl

rows_Ordered : Ordered itself older (9 ∷ 7 ∷ 4 ∷ [])
rows_Ordered =
    (refl, ((refl, refl), ((refl, refl), tt)), (refl, ((refl, refl), tt), (refl, tt, tt)))

walk_complete_example : walk itself older 4 (9 ∷ 7 ∷ 4 ∷ []) 2 none ≡ 9 ∷ 7 ∷ 4 ∷ []
walk_complete_example = walk_complete itself older (9 ∷ 7 ∷ 4 ∷ []) 2 rows_Ordered (omega arith)
