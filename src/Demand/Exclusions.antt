-- ===== src/Demand/Exclusions.antt =====
-- packages/core/src/demand/exclusions.ts: competitor exclusions by domain. A domain is the list
-- of its code points; `trim` and `toLowerCase` are those of ASCII.
pub mod Laws
use adgate.Prelude.{
  ℕ, ◌+◌, String, Bool, true, false, ◌&&◌, ◌||◌, not, Option, none, some, List, [], ◌∷◌, ◌++◌, map,
  if◌then◌else◌, leb, eqb, or_else, is_empty, any, all, codes, same_codes, ends_with,
}

abbrev pub slash : ℕ
slash = b'/'

abbrev pub dot : ℕ
dot = b'.'

abbrev pub is_space : ℕ → Bool
is_space c = eqb c 32 || (leb 9 c && leb c 13)

abbrev pub to_lower : ℕ → ℕ
to_lower c = if leb b'A' c && leb c b'Z' then c + 32 else c

abbrev pub is_lower : ℕ → Bool
is_lower c = leb b'a' c && leb c b'z'

abbrev pub is_digit : ℕ → Bool
is_digit c = leb b'0' c && leb c b'9'

unfoldable pub trim_start : List ℕ → List ℕ
trim_start [] = []
trim_start (c ∷ cs) = let rest = trim_start cs in if is_space c then rest else c ∷ cs

unfoldable pub trim_end : List ℕ → List ℕ
trim_end [] = []
trim_end (c ∷ cs) = let rest = trim_end cs in if is_space c && is_empty rest then [] else c ∷ rest

-- After the first letter of a scheme: what follows `://`, if only scheme characters precede it.
unfoldable pub after_scheme : List ℕ → Option (List ℕ)
after_scheme [] = none
after_scheme (c ∷ []) = none
after_scheme (c ∷ d ∷ []) = none
after_scheme (c ∷ d ∷ e ∷ cs) =
    let rest = after_scheme (d ∷ e ∷ cs) in
    if eqb c b':'
    then (if eqb d slash && eqb e slash then some cs else none)
    else if is_lower c || (is_digit c || (eqb c b'+' || (eqb c b'.' || eqb c b'-')))
    then rest
    else none

-- `.replace(SCHEME, '')`
unfoldable pub strip_scheme : List ℕ → List ℕ
strip_scheme [] = []
strip_scheme (c ∷ cs) = if is_lower c then or_else (after_scheme cs) (c ∷ cs) else c ∷ cs

abbrev pub starts_path : ℕ → Bool
starts_path c = eqb c slash || (eqb c b'?' || eqb c b'#')

-- `.split(PATH_START, 1)[0]`
unfoldable pub before_path : List ℕ → List ℕ
before_path [] = []
before_path (c ∷ cs) = let rest = before_path cs in if starts_path c then [] else c ∷ rest

-- What follows the last `@`, if there is one.
unfoldable pub after_userinfo : List ℕ → Option (List ℕ)
after_userinfo [] = none
after_userinfo (c ∷ cs) = elim (after_userinfo cs) [
  | some rest ↦ some rest
  | none ↦ if eqb c b'@' then some cs else none
]

-- `.replace(PORT, '')`: from the first colon that only digits follow.
unfoldable pub strip_port : List ℕ → List ℕ
strip_port [] = []
strip_port (c ∷ cs) =
    let rest = strip_port cs in if eqb c b':' && all is_digit cs then [] else c ∷ rest

-- `.replace(LEADING_WILDCARDS, '')`
unfoldable pub strip_wildcards : List ℕ → List ℕ
strip_wildcards [] = []
strip_wildcards (c ∷ []) = if eqb c dot then [] else c ∷ []
strip_wildcards (c ∷ d ∷ cs) =
    let next = strip_wildcards (d ∷ cs) in
    let after = strip_wildcards cs in
    if eqb c dot then next else if eqb c b'*' && eqb d dot then after else c ∷ d ∷ cs

-- `.replace(TRAILING_DOTS, '')`
unfoldable pub strip_trailing_dots : List ℕ → List ℕ
strip_trailing_dots [] = []
strip_trailing_dots (c ∷ cs) =
    let rest = strip_trailing_dots cs in if eqb c dot && is_empty rest then [] else c ∷ rest

unfoldable pub normalize_domain : List ℕ → List ℕ
normalize_domain domain =
    let lowered = map to_lower (trim_end (trim_start domain)) in
    let host = before_path (strip_scheme lowered) in
    let named = or_else (after_userinfo host) host in
    strip_trailing_dots (strip_wildcards (strip_port named))

unfoldable pub domain_matches : String → String → Bool
domain_matches domain exclusion =
    let candidate = normalize_domain (codes domain) in
    let excluded = normalize_domain (codes exclusion) in
    if is_empty candidate || is_empty excluded
    then false
    else same_codes candidate excluded || ends_with candidate (dot ∷ excluded)

unfoldable pub is_excluded_domain : String → List String → Bool
is_excluded_domain domain exclusions = any (λ exclusion. domain_matches domain exclusion) exclusions
