-- ===== src/Classify/Prepare/Laws.antt =====
-- The cut at code units keeps whole code points, and what is read of a conversation.
use adgate.Prelude.{
  ℕ, zero, suc, ◌+◌, ◌-◌, ◌*◌, ◌≤◌, ◌≡◌, refl, sym, ap, ◌∙◌, ◌⊎◌, inl, inr, Bool, true, false, List,
  [], ◌∷◌, arith, leb, length, Bool-cases, Option, some, map, filter, ◌++◌, ltb, ◌&&◌, or_else,
  if◌then◌else◌,
}
use adgate.Classify.Rules.Match.{drop}
use adgate.Classify.Prepare.{
  is_pair, units, low_half, drop_units, last_units, last_of, last_chars, Message, PrepareTextInput,
  PrepareTextOptions, classified_role, join_lines, message_line, prepare_from, prepare_text,
}

length-units-le : (text : List ℕ) → (length text ≤ units text) × (units text ≤ 2 * length text)
length-units-le [] = omega arith
length-units-le (c ∷ cs) = ground (arith, length-units-le cs)

length-drop : (n : ℕ) (text : List ℕ) → length (drop n text) ≡ length text - n
length-drop zero text = omega arith
length-drop (suc n) [] = omega arith
length-drop (suc n) (c ∷ cs) = omega (arith, length-drop n cs)

drop_nil : (n : ℕ) → drop {A = ℕ} n [] ≡ []
drop_nil zero = refl
drop_nil (suc n) = refl

drop_cong : (m n : ℕ) (text : List ℕ) → m ≡ n → drop m text ≡ drop n text
drop_cong m n text e = ap (λ k. drop k text) e

drop-drop : (m n : ℕ) (text : List ℕ) → drop m (drop n text) ≡ drop (n + m) text
drop-drop m zero text = drop_cong m (0 + m) text (omega arith)
drop-drop m (suc n) [] = drop_nil m ∙ sym (drop_nil (suc n + m))
drop-drop m (suc n) (c ∷ cs) =
    drop-drop m n cs ∙ drop_cong (suc (n + m)) (suc n + m) (c ∷ cs) (omega arith)

-- A cut at a code unit is a cut at a code point, or leaves half a pair before one.
abbrev Cut : ℕ → List ℕ → Type 0
Cut n text =
    (j : ℕ) × (((drop_units n text ≡ drop j text) × (units (drop j text) ≡ units text - n))
      ⊎ ((h : ℕ) × (drop_units n text ≡ h ∷ drop j text)
          × (suc (units (drop j text)) ≡ units text - n)))

cut : (n : ℕ) (text : List ℕ) → n ≤ units text → Cut n text
unfolding drop_units
cut zero text h = (0, inl (refl, omega arith))
cut (suc n) [] h = absurd (omega (arith, h))
cut (suc zero) (c ∷ cs) h = elim (Bool-cases (is_pair c)) [
  | inl pair ↦ (1, inr (low_half c, rw pair refl, rw pair (omega arith)))
  | inr unit ↦ (1, inl (rw unit refl, rw unit (omega arith)))
]
cut (suc (suc n)) (c ∷ cs) h = elim (Bool-cases (is_pair c)) [
  | inl pair ↦
      let (j, either) = cut n cs (ground arith) in
      elim either [
        | inl (e, u) ↦ (suc j, inl (rw pair e, ground arith))
        | inr (half, e, u) ↦ (suc j, inr (half, rw pair e, ground arith))
      ]
  | inr unit ↦
      let (j, either) = cut (suc n) cs (ground arith) in
      elim either [
        | inl (e, u) ↦ (suc j, inl (rw unit e, ground arith))
        | inr (half, e, u) ↦ (suc j, inr (half, rw unit e, ground arith))
      ]
]

-- Where enough is left of a text, its last code points are those of the whole.
last-drop :
    (n j : ℕ) (text : List ℕ)
    → suc n ≤ length (drop j text)
    → last_of (suc n) (drop j text) ≡ last_of (suc n) text
last-drop n j text h =
    let size = length-drop j text in
    drop-drop (length (drop j text) - suc n) j text
    ∙ drop_cong (j + (length (drop j text) - suc n)) (length text - suc n) text
        (omega (arith, size, h))

drop_all : (n : ℕ) (text : List ℕ) → length text ≤ n → drop n text ≡ []
drop_all zero [] h = refl
drop_all zero (c ∷ cs) h = absurd (omega (arith, h))
drop_all (suc n) [] h = refl
drop_all (suc n) (c ∷ cs) h = drop_all n cs (omega (arith, h))

last_half :
    (max half : ℕ) (text : List ℕ)
    → max ≤ length text
    → last_of max (half ∷ text) ≡ last_of max text
last_half max half text h =
    drop_cong (suc (length text) - max) (suc (length text - max)) (half ∷ text) (omega (arith, h))

last_short :
    (max : ℕ) (text : List ℕ)
    → (if leb (length text) max then text else last_of max text) ≡ last_of max text
last_short max text = elim (Bool-cases (leb (length text) max)) [
  | inl short ↦ rw short (drop_cong 0 (length text - max) text (ground arith))
  | inr long ↦ rw long refl
]

last-last_units :
    (n : ℕ) (text : List ℕ) → last_of (suc n) (last_units (suc n * 2) text) ≡ last_of (suc n) text
last-last_units n text = elim (Bool-cases (leb (units text) (suc n * 2))) [
  | inl short ↦
      let none : units text - suc n * 2 ≡ 0 = ground arith in
      ap (λ k. last_of (suc n) (drop_units k text)) none ∙ unfold drop_units in refl
  | inr long ↦
      let (j, either) = cut (units text - suc n * 2) text (omega arith) in
      let bound = length-units-le (drop j text) in
      elim either [
        | inl (e, u) ↦ ap (last_of (suc n)) e ∙ last-drop n j text (ground arith)
        | inr (half, e, u) ↦
            ap (last_of (suc n)) e
            ∙ last_half (suc n) half (drop j text) (ground arith)
            ∙ last-drop n j text (ground arith)
      ]
]

last_chars_lem : (text : List ℕ) (max : ℕ) → last_chars text max ≡ last_of max text
unfolding last_chars
last_chars_lem text zero = sym (drop_all (length text - 0) text (omega arith))
last_chars_lem text (suc n) = elim (Bool-cases (leb (units text) (suc n))) [
  | inl short ↦
      let bound = length-units-le text in
      rw short (drop_cong 0 (length text - suc n) text (ground arith))
  | inr long ↦ rw long (last_short (suc n) (last_units (suc n * 2) text) ∙ last-last_units n text)
]

last_chars-length : (text : List ℕ) (max : ℕ) → length (last_chars text max) ≤ max
last_chars-length text max =
    omega (arith, ap length (last_chars_lem text max), length-drop (length text - max) text)

-- The lines of the last messages, cut to the last code points.
abbrev pub read_lines : (Message → List ℕ) → List Message → PrepareTextOptions → List ℕ
read_lines line messages options =
    last_of options.max_chars (join_lines (map line (last_of options.max_messages messages)))

prepare_from_lem :
    (messages : List Message) (summary : List ℕ) (options : PrepareTextOptions)
    → 1 ≤ options.max_messages
    → 1 ≤ length messages
    → let prepared = prepare_from messages summary options in
      (prepared.text ≡ read_lines message_line messages options)
      × (prepared.rules_text ≡ read_lines (λ m. m.content) messages options)
      × (length prepared.text ≤ options.max_chars)
      × (length prepared.rules_text ≤ options.max_chars)
prepare_from_lem messages summary options room spoken =
    let kept = last_of options.max_messages messages in
    let test : (ltb 0 (length messages) && ltb 0 options.max_messages) ≡ true = ground arith in
    rw test (
      last_chars_lem (join_lines (map message_line kept)) options.max_chars,
      last_chars_lem (join_lines (map (λ m. m.content) kept)) options.max_chars,
      last_chars-length (join_lines (map message_line kept)) options.max_chars,
      last_chars-length (join_lines (map (λ m. m.content) kept)) options.max_chars,
    )

filter-ignored :
    {A : Type 0} (p : A → Bool) (before after : List A) (x : A)
    → p x ≡ false
    → filter p (before ++ x ∷ after) ≡ filter p (before ++ after)
filter-ignored p [] after x h = rw h refl
filter-ignored p (y ∷ before) after x h = ground (arith, filter-ignored p before after x h)

-- Where users or assistants have spoken, the prepared texts are the last code points of the last of
-- their messages, with and without the role in front, and no text is longer than the limit: the
-- cut at code units leaves no half of a pair. A message of the system or of a tool changes nothing.
pub prepare_text_lem :
    (before after : List Message) (other : Message) (summary : Option (List ℕ))
    (options : PrepareTextOptions)
    → 1 ≤ options.max_messages
    → 1 ≤ length (filter (λ m. classified_role m.role) (before ++ after))
    → classified_role other.role ≡ false
    → let input : List Message → PrepareTextInput =
        λ messages. record { messages = some messages; context_summary = summary } in
      let spoken = filter (λ m. classified_role m.role) (before ++ after) in
      let prepared = prepare_text (input (before ++ after)) options in
      ((prepared.text ≡ read_lines message_line spoken options)
        × (prepared.rules_text ≡ read_lines (λ m. m.content) spoken options)
        × (length prepared.text ≤ options.max_chars)
        × (length prepared.rules_text ≤ options.max_chars))
      × (prepare_text (input (before ++ other ∷ after)) options ≡ prepared)
unfolding prepare_text
prepare_text_lem before after other summary options room spoken ignored = (
  prepare_from_lem (filter (λ m. classified_role m.role) (before ++ after)) (or_else summary [])
      options room spoken,
  ap (λ messages. prepare_from messages (or_else summary []) options)
      (filter-ignored (λ m. classified_role m.role) before after other ignored),
)
