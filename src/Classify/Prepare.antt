-- ===== src/Classify/Prepare.antt =====
-- packages/core/src/classify/prepare.ts: the texts that the classifier reads. A text is the list of
-- its code points; one above 65535 is two code units of the source.
pub mod Laws
use adgate.Prelude.{
  ℕ, zero, suc, ◌+◌, ◌-◌, ◌*◌, ◌/◌, ◌%◌, String, Bool, true, false, ◌&&◌, ◌||◌, Option, List, [],
  ◌∷◌, ◌++◌, map, if◌then◌else◌, leb, ltb, length, filter, is_empty, or_else, codes,
}
use adgate.Classify.Rules.Match.{drop}

pub data MessageRole : Type 0 where
  system user assistant tool : MessageRole

pub record Message : Type 0 where
  pub role : MessageRole
  pub content : List ℕ

pub record PrepareTextInput : Type 0 where
  pub messages : Option (List Message)
  pub context_summary : Option (List ℕ)

pub record PrepareTextOptions : Type 0 where
  pub max_messages : ℕ
  pub max_chars : ℕ

pub record PreparedText : Type 0 where
  pub text : List ℕ
  pub rules_text : List ℕ

abbrev pub default_prepare_options : PrepareTextOptions
default_prepare_options = record { max_messages = 4; max_chars = 4000 }

-- `CLASSIFIED_ROLES`
abbrev pub classified_role : MessageRole → Bool
classified_role system = false
classified_role user = true
classified_role assistant = true
classified_role tool = false

abbrev role_name : MessageRole → String
role_name system = "system"
role_name user = "user"
role_name assistant = "assistant"
role_name tool = "tool"

abbrev pub is_pair : ℕ → Bool
is_pair c = leb 65536 c

-- `text.length`
abbrev pub units : List ℕ → ℕ
units [] = 0
units (c ∷ cs) = if is_pair c then suc (suc (units cs)) else suc (units cs)

-- The second code unit of a code point that takes two.
abbrev pub low_half : ℕ → ℕ
low_half c = 56320 + (c - 65536) % 1024

-- Without the first `n` code units. Half a pair stays as a code point of its own.
unfoldable pub drop_units : ℕ → List ℕ → List ℕ
drop_units zero text = text
drop_units (suc n) [] = []
drop_units (suc zero) (c ∷ cs) = if is_pair c then low_half c ∷ cs else cs
drop_units (suc (suc n)) (c ∷ cs) =
    let pair = drop_units n cs in
    let unit = drop_units (suc n) cs in if is_pair c then pair else unit

-- `text.slice(-n)` for a positive `n`
abbrev pub last_units : ℕ → List ℕ → List ℕ
last_units n text = drop_units (units text - n) text

-- `xs.slice(-n)` for a positive `n`
abbrev pub last_of {ℓ} : {A : Type ℓ} → ℕ → List A → List A
last_of n xs = drop (length xs - n) xs

unfoldable pub last_chars : List ℕ → ℕ → List ℕ
last_chars text zero = []
last_chars text (suc n) =
    let max = suc n in
    let tail = last_units (max * 2) text in
    if leb (units text) max then text else if leb (length tail) max then tail else last_of max tail

-- `texts.join('\n')`
abbrev pub join_lines : List (List ℕ) → List ℕ
join_lines [] = []
join_lines (line ∷ []) = line
join_lines (line ∷ next ∷ lines) = line ++ 10 ∷ join_lines (next ∷ lines)

abbrev pub message_line : Message → List ℕ
message_line message = codes (role_name message.role) ++ 58 ∷ 32 ∷ message.content

-- From the messages that are classified and the summary.
abbrev pub prepare_from : List Message → List ℕ → PrepareTextOptions → PreparedText
prepare_from messages summary options =
    let kept = last_of options.max_messages messages in
    let cut = last_chars summary options.max_chars in
    if ltb 0 (length messages) && ltb 0 options.max_messages
    then record {
      text = last_chars (join_lines (map message_line kept)) options.max_chars;
      rules_text = last_chars (join_lines (map (λ m. m.content) kept)) options.max_chars;
    }
    else record { text = cut; rules_text = cut }

unfoldable pub prepare_text : PrepareTextInput → PrepareTextOptions → PreparedText
prepare_text input options =
    prepare_from (filter (λ m. classified_role m.role) (or_else input.messages []))
      (or_else input.context_summary []) options
