-- ===== src/Demand/Exclusions/Laws.antt =====
-- Which domains a competitor exclusion covers.
use adgate.Prelude.{
  ℕ, String, ◌≡◌, ◌≢◌, refl, ◌↔◌, ◌⊎◌, inl, inr, Bool, true, false, Bool-cases, not, ◌&&◌, List, [],
  ◌∷◌, ◌++◌, map, arith, if◌then◌else◌, ◌||◌, same_codes, ends_with, eqb, all, is_empty, codes,
  same_codes_iff, ends_with_iff, or_else,
}
use adgate.Demand.Exclusions.{
  dot, to_lower, trim_start, trim_end, strip_scheme, starts_path, before_path, after_userinfo,
  strip_port, strip_wildcards, strip_trailing_dots, normalize_domain, domain_matches,
}

or-true : (a b : Bool) → b ≡ true → (a || b) ≡ true
or-true a b h = ground arith

covers_iff :
    (c e : List ℕ)
    → ((if is_empty c || is_empty e then false else same_codes c e || ends_with c (dot ∷ e)) ≡ true)
      ↔ ((c ≢ []) × (e ≢ []) × ((c ≡ e) ⊎ ((front : List ℕ) × (c ≡ front ++ dot ∷ e))))
covers_iff [] e = (λ h. cc, λ h. absurd (h.0 refl))
covers_iff (c ∷ cs) [] = (λ h. cc, λ h. absurd (h.1 refl))
covers_iff (c ∷ cs) (e ∷ es) =
    let same = same_codes_iff (c ∷ cs) (e ∷ es) in
    let sub = ends_with_iff (c ∷ cs) (dot ∷ e ∷ es) in
    (
      λ h. (
        λ x. cc,
        λ x. cc,
        elim (Bool-cases (same_codes (c ∷ cs) (e ∷ es))) [
          | inl equal ↦ inl (same.0 equal)
          | inr other ↦ inr (sub.0 (rw other at h))
        ],
      ),
      λ h. elim (h.2) [ inl equal ↦ rw (same.1 equal) | inr under ↦ or-true _ _ (sub.1 under) ],
    )

-- An exclusion covers a domain exactly when both are non-blank after normalisation and the domain is
-- the excluded one or a subdomain of it: it ends in the excluded one behind a dot.
pub domain_matches_iff :
    (domain exclusion : String)
    → (domain_matches domain exclusion ≡ true) ↔ (
        (normalize_domain (codes domain) ≢ [])
        × (normalize_domain (codes exclusion) ≢ [])
        × ((normalize_domain (codes domain) ≡ normalize_domain (codes exclusion))
            ⊎ ((front : List ℕ) × (normalize_domain (codes domain)
                  ≡ front ++ dot ∷ normalize_domain (codes exclusion)))))
unfolding domain_matches
domain_matches_iff domain exclusion =
    covers_iff (normalize_domain (codes domain)) (normalize_domain (codes exclusion))

-- Characters that end a host: a normalised domain has none of them.
abbrev pub in_host : ℕ → Bool
in_host c = not (starts_path c) && not (eqb c b'@')

module _ (p : ℕ → Bool) where
  all-strip_port : (cs : List ℕ) → all p cs ≡ true → all p (strip_port cs) ≡ true
  unfolding strip_port
  all-strip_port [] h = refl
  all-strip_port (c ∷ cs) h = ground (arith, all-strip_port cs)

  all-strip_trailing_dots : (cs : List ℕ) → all p cs ≡ true → all p (strip_trailing_dots cs) ≡ true
  unfolding strip_trailing_dots
  all-strip_trailing_dots [] h = refl
  all-strip_trailing_dots (c ∷ cs) h = ground (arith, all-strip_trailing_dots cs)

  all-strip_wildcards : (cs : List ℕ) → all p cs ≡ true → all p (strip_wildcards cs) ≡ true
  unfolding strip_wildcards
  all-strip_wildcards [] h = refl
  all-strip_wildcards (c ∷ []) h = ground arith
  all-strip_wildcards (c ∷ d ∷ cs) h =
      ground (arith, all-strip_wildcards (d ∷ cs), all-strip_wildcards cs)

before_path-all : (cs : List ℕ) → all (λ c. not (starts_path c)) (before_path cs) ≡ true
unfolding before_path
before_path-all [] = refl
before_path-all (c ∷ cs) = ground (arith, before_path-all cs)

-- The part behind the last `@` has none left, and is the whole where there is none.
after_userinfo-all :
    (cs : List ℕ)
    → all (λ c. not (starts_path c)) cs ≡ true
    → all in_host (or_else (after_userinfo cs) cs) ≡ true
unfolding after_userinfo
after_userinfo-all [] h = refl
after_userinfo-all (c ∷ cs) h = ground (arith, after_userinfo-all cs)

strip_trailing_dots-ends : (cs : List ℕ) → ends_with (strip_trailing_dots cs) (dot ∷ []) ≡ false
unfolding strip_trailing_dots
strip_trailing_dots-ends [] = refl
strip_trailing_dots-ends (c ∷ cs) = ground (arith, strip_trailing_dots-ends cs)

-- A normalised domain has no path, query, fragment or userinfo left, and no trailing dot.
pub normalize_domain-host :
    (domain : List ℕ)
    → (all in_host (normalize_domain domain) ≡ true)
      × (ends_with (normalize_domain domain) (dot ∷ []) ≡ false)
unfolding normalize_domain
normalize_domain-host domain =
    let lowered = map to_lower (trim_end (trim_start domain)) in
    let host = before_path (strip_scheme lowered) in
    let named = or_else (after_userinfo host) host in
    (
      all-strip_trailing_dots in_host (strip_wildcards (strip_port named)) (
          all-strip_wildcards in_host (strip_port named) (
            all-strip_port in_host named
              (after_userinfo-all host (before_path-all (strip_scheme lowered))))),
      strip_trailing_dots-ends (strip_wildcards (strip_port named)),
    )
