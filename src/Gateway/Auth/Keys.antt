-- ===== src/Gateway/Auth/Keys.antt =====
-- packages/gateway/src/auth/keys.ts: API keys in texts, and their verification. A text is the list
-- of its code points; `base64url` and the check of a hash stand for Node's and argon2's.
use adgate.Prelude.{
  ℕ, zero, suc, ◌+◌, ◌-◌, ◌%◌, Bool, false, ◌&&◌, ◌||◌, not, Option, none, some, List, [], ◌∷◌,
  ◌++◌, if◌then◌else◌, ltb, leb, eqb, length, all, is_empty, starts_with, codes,
}
use adgate.Classify.Run.Types.{Attempt, done, threw}
use adgate.Demand.Exclusions.{to_lower, is_lower, is_digit, is_space}
use adgate.Classify.Rules.Match.{drop}

abbrev pub is_alphanumeric : ℕ → Bool
is_alphanumeric c = is_lower (to_lower c) || is_digit c

-- `[A-Za-z0-9_-]`
abbrev pub is_secret_char : ℕ → Bool
is_secret_char c = is_alphanumeric c || (eqb c 95 || eqb c 45)

pub record ParsedApiKey : Type 0 where
  pub key_prefix : List ℕ
  pub secret : List ℕ

abbrev cons_front : ℕ → Option (List ℕ × List ℕ) → Option (List ℕ × List ℕ)
cons_front c none = none
cons_front c (some (front, back)) = some (c ∷ front, back)

-- The text up to the first `_`, and what follows it.
abbrev pub split_at : List ℕ → Option (List ℕ × List ℕ)
split_at [] = none
split_at (c ∷ cs) = let rest = split_at cs in if eqb c 95 then some ([], cs) else cons_front c rest

abbrev between : ℕ → ℕ → ℕ → Bool
between low high n = leb low n && leb n high

abbrev pub is_prefix : List ℕ → Bool
is_prefix text = all is_alphanumeric text && between 8 12 (length text)

abbrev pub is_secret : List ℕ → Bool
is_secret text = all is_secret_char text && between 32 128 (length text)

abbrev pub parsed_key : Option (List ℕ × List ℕ) → Option ParsedApiKey
parsed_key none = none
parsed_key (some (key_prefix, secret)) =
    if is_prefix key_prefix && is_secret secret
    then some (record { key_prefix = key_prefix; secret = secret })
    else none

-- `ak_`
abbrev pub scheme : List ℕ
scheme = 97 ∷ 107 ∷ 95 ∷ []

-- The prefix holds no `_`, so that the first one after the scheme ends it.
unfoldable pub parse_api_key : List ℕ → Option ParsedApiKey
parse_api_key presented =
    if starts_with presented scheme then parsed_key (split_at (drop 3 presented)) else none

abbrev lower_all : List ℕ → List ℕ
lower_all [] = []
lower_all (c ∷ cs) = to_lower c ∷ lower_all cs

abbrev drop_spaces : List ℕ → List ℕ
drop_spaces [] = []
drop_spaces (c ∷ cs) = let rest = drop_spaces cs in if eqb c 32 then rest else c ∷ cs

-- `bearer`
abbrev bearer_word : List ℕ
bearer_word = codes "bearer"

-- The token after the word and at least one space.
abbrev bearer_token : List ℕ → Option (List ℕ)
bearer_token [] = none
bearer_token (c ∷ cs) =
    let token = drop_spaces cs in
    if eqb c 32 && (not (is_empty token) && all (λ d. not (is_space d)) token)
    then some token
    else none

abbrev parse_token : Option (List ℕ) → Option ParsedApiKey
parse_token none = none
parse_token (some token) = parse_api_key token

unfoldable pub parse_bearer_header : Option (List ℕ) → Option ParsedApiKey
parse_bearer_header none = none
parse_bearer_header (some header) =
    if starts_with (lower_all header) bearer_word
    then parse_token (bearer_token (drop 6 header))
    else none

abbrev pub key_prefix_length : ℕ
key_prefix_length = 12

-- `KEY_PREFIX_ALPHABET[n]`
abbrev pub letter_at : ℕ → ℕ
letter_at n = if ltb n 26 then n + 65 else if ltb n 52 then n + 71 else n - 4

-- One round of `alphanumeric`: the bytes below 248 give a letter each, while letters are wanted.
unfoldable pub letters_from : ℕ → List ℕ → List ℕ
letters_from wanted [] = []
letters_from zero (byte ∷ bytes) = []
letters_from (suc wanted) (byte ∷ bytes) =
    let used = letters_from wanted bytes in
    let skipped = letters_from (suc wanted) bytes in
    if ltb byte 248 then letter_at (byte % 62) ∷ used else skipped

abbrev prepend : List ℕ → Option (List ℕ) → Option (List ℕ)
prepend front none = none
prepend front (some rest) = some (front ++ rest)

-- The rounds, over the byte strings that the random source gives; `none` if they run out.
unfoldable pub alphanumeric : ℕ → List (List ℕ) → Option (List ℕ)
alphanumeric wanted [] = if eqb wanted 0 then some [] else none
alphanumeric wanted (bytes ∷ rounds) =
    let got = letters_from wanted bytes in prepend got (alphanumeric (wanted - length got) rounds)

pub record GeneratedApiKey : Type 0 where
  pub api_key : List ℕ
  pub key_prefix : List ℕ
  pub secret : List ℕ

unfoldable pub generate_api_key :
    (List ℕ → List ℕ) → List (List ℕ) → List ℕ → Option GeneratedApiKey
generate_api_key base64url rounds secret_bytes = elim (alphanumeric key_prefix_length rounds) [
  | none ↦ none
  | some key_prefix ↦
      let secret = base64url secret_bytes in
      some (record {
        api_key = scheme ++ key_prefix ++ 95 ∷ secret;
        key_prefix = key_prefix;
        secret = secret;
      })
]

abbrev done_true : Attempt Bool → Bool
done_true (done ok) = ok
done_true (threw name) = false

-- `verifyApiSecret`
unfoldable pub verify_api_secret :
    (List ℕ → Bool) → (List ℕ → List ℕ → Attempt Bool) → List ℕ → List ℕ → Bool
verify_api_secret is_argon2id_hash verify hashed_key secret =
    if is_argon2id_hash hashed_key then done_true (verify hashed_key secret) else false
