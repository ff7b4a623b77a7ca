-- ===== src/Demand/Affiliate/Tag.antt =====
-- The tag of an Amazon link, read back from the link.
use adgate.Demand.Exclusions.{to_lower}
use adgate.Prelude.{
  inl, inr, map, leb, if◌then◌else◌, ◌==◌, codes_eq, Bool-cases, ℕ, ◌≡◌, refl, sym, ap, ◌∙◌, Bool,
  true, some, List, [], ◌∷◌, ◌++◌, arith, all, filter,
}
use mathlib.Core.List.{append-nil}
use adgate.Demand.Affiliate.Text.{
  before, from, after, split_on, join_with, lacks, lacks-append, before-lacks, before_lacking,
  after_lacking, before-append, after-append, before_past, before-from, from-append, from-from,
  split-join, split-lacks, split_lacking_other, join-lacks, filter-lacks, all-append, before-all,
  after-all, from-all, split-all, filter-all, join-all, chars-append,
}
use adgate.Demand.Affiliate.Amazon.{
  Urls, is_tag_name, is_tag_param, is_kept, tag_name, tag_pair, query_of, path_of, fragment_of,
  set_tag_param,
}

-- No character is one that the parser of URLs takes out: white space and controls.
abbrev pub is_plain : List ℕ → Bool
is_plain text = all (leb 33) text

-- What the platform documents. An encoded text has no `#`, no `&` and nothing that a parser takes out. A
-- text of letters decodes to itself. `read` decodes a name or a value of a query as `URLSearchParams`
-- does, which never fails: it gives back what was encoded, and where it gives `tag` in some case, the
-- text has nothing else than these letters and their codes, so that it decodes to the same. The query
-- and the fragment of a plain URL have no part in its protocol and its host.
pub record IsPlatform (urls : Urls) (read : List ℕ → List ℕ) : Type 0 where
  pub encoded_plain :
      (text encoded : List ℕ)
      → urls.encode text ≡ some encoded
      → (lacks b'#' encoded ≡ true) × (lacks b'&' encoded ≡ true) × (is_plain encoded ≡ true)
  pub decodes_tag : urls.decode tag_name ≡ some tag_name
  pub reads_tag : read tag_name ≡ tag_name
  pub reads_encoded :
      (text encoded : List ℕ) → urls.encode text ≡ some encoded → read encoded ≡ text
  pub reads_name :
      (name : List ℕ) → map to_lower (read name) ≡ tag_name → urls.decode name ≡ some (read name)
  pub host_front :
      (a b : List ℕ)
      → is_plain a ≡ true
      → is_plain b ≡ true
      → path_of a ≡ path_of b
      → (urls.is_http_url a ≡ urls.is_http_url b) × (urls.hostname a ≡ urls.hostname b)

-- What a reader of a query finds under the name of the tag, in any case.
abbrev pub tags_read : (List ℕ → List ℕ) → List (List ℕ) → List (List ℕ)
tags_read read [] = []
tags_read read (pair ∷ pairs) =
    if map to_lower (read (before b'=' pair)) == tag_name
    then read (after b'=' pair) ∷ tags_read read pairs
    else tags_read read pairs

module _ (urls : Urls) (read : List ℕ → List ℕ) (platform : IsPlatform urls read) where
  tag_pair-is_tag : (encoded : List ℕ) → is_tag_param urls (tag_pair urls encoded) ≡ true
  unfolding is_tag_param
  tag_pair-is_tag encoded = rw (before-append b'=' tag_name encoded refl, platform.decodes_tag) refl

  filter-kept :
      (pairs : List (List ℕ)) → filter (is_tag_param urls) (filter (is_kept urls) pairs) ≡ []
  filter-kept [] = refl
  filter-kept (pair ∷ pairs) = ground (arith, filter-kept pairs)

  filter-last :
      (p : List ℕ → Bool) (pairs : List (List ℕ)) (pair : List ℕ)
      → p pair ≡ true
      → filter p (pairs ++ pair ∷ []) ≡ filter p pairs ++ pair ∷ []
  filter-last p [] pair h = rw h refl
  filter-last p (x ∷ pairs) pair h = ground (arith, filter-last p pairs pair)

  -- The query that a tag is set in.
  abbrev tagged : List ℕ → List ℕ → List (List ℕ)
  tagged url encoded =
      filter (is_kept urls) (split_on b'&' (query_of url)) ++ tag_pair urls encoded ∷ []

  tagged-lacks :
      (url encoded : List ℕ)
      → lacks b'#' encoded ≡ true
      → lacks b'&' encoded ≡ true
      → (all (lacks b'#') (tagged url encoded) ≡ true)
        × (all (lacks b'&') (tagged url encoded) ≡ true)
  tagged-lacks url encoded h a =
      let pairs = split_on b'&' (query_of url) in
      let kept = filter (is_kept urls) pairs in
      let no_hash = after_lacking b'?' b'#' (before b'#' url) (before-lacks b'#' url) in
      let hashes =
        filter-lacks b'#' (is_kept urls) pairs
          (split_lacking_other b'&' b'#' (query_of url) no_hash) in
      let ampersands = filter-lacks b'&' (is_kept urls) pairs (split-lacks b'&' (query_of url)) in
      let tag_hash : lacks b'#' (tag_pair urls encoded) ≡ true = h in
      let tag_and : lacks b'&' (tag_pair urls encoded) ≡ true = a in
      (
        all-append (lacks b'#') kept (tag_pair urls encoded ∷ []) ∙ rw (hashes, tag_hash) refl,
        all-append (lacks b'&') kept (tag_pair urls encoded ∷ []) ∙ rw (ampersands, tag_and) refl,
      )

  -- A list that ends with a piece is a first piece and the others.
  nonempty :
      (pieces : List (List ℕ)) (last : List ℕ)
      → (first : List ℕ) × (others : List (List ℕ)) × (pieces ++ last ∷ [] ≡ first ∷ others)
  nonempty [] last = (last, [], refl)
  nonempty (piece ∷ pieces) last = (piece, pieces ++ last ∷ [], refl)

  -- What is in front of the fragment.
  abbrev front : List ℕ → List ℕ → List ℕ
  front url encoded = path_of url ++ b'?' ∷ join_with b'&' (tagged url encoded)

  set_tag_param-front :
      (url encoded : List ℕ)
      → lacks b'#' encoded ≡ true
      → lacks b'&' encoded ≡ true
      → (set_tag_param urls url encoded ≡ front url encoded ++ fragment_of url)
        × (lacks b'#' (front url encoded) ≡ true)
  unfolding set_tag_param
  set_tag_param-front url encoded h a =
      let query = join_with b'&' (tagged url encoded) in
      let no_hash =
        join-lacks b'&' b'#' (tagged url encoded) refl ((tagged-lacks url encoded h a).0) in
      let path = before_lacking b'?' b'#' (before b'#' url) (before-lacks b'#' url) in
      (refl, lacks-append b'#' (path_of url) (b'?' ∷ query) ∙ rw (path, no_hash) refl)

  -- The parts of the link.
  pub set_tag_param-parts :
      (url encoded : List ℕ)
      → lacks b'#' encoded ≡ true
      → lacks b'&' encoded ≡ true
      → let link = set_tag_param urls url encoded in
        (path_of link ≡ path_of url)
        × (split_on b'&' (query_of link) ≡ tagged url encoded)
        × (fragment_of link ≡ fragment_of url)
  set_tag_param-parts url encoded h a =
      let link = set_tag_param urls url encoded in
      let (whole, no_hash) = set_tag_param-front url encoded h a in
      let query = join_with b'&' (tagged url encoded) in
      let body : before b'#' link ≡ front url encoded =
        ap (before b'#') whole
        ∙ before_past b'#' (front url encoded) (from b'#' url) no_hash
        ∙ ap (λ t. front url encoded ++ t) (before-from b'#' url)
        ∙ append-nil (front url encoded) in
      let no_question = before-lacks b'?' (before b'#' url) in
      let asked : query_of link ≡ query =
        ap (after b'?') body ∙ after-append b'?' (path_of url) query no_question in
      let (first, others, e) =
        nonempty (filter (is_kept urls) (split_on b'&' (query_of url))) (tag_pair urls encoded) in
      (
        ap (before b'?') body ∙ before-append b'?' (path_of url) query no_question,
        ap (split_on b'&') asked
            ∙ ap (λ pairs. split_on b'&' (join_with b'&' pairs)) e
            ∙ split-join b'&' first others
                (sym (ap (all (lacks b'&')) e) ∙ (tagged-lacks url encoded h a).1)
            ∙ sym e,
        ap (from b'#') whole
            ∙ from-append b'#' (front url encoded) (from b'#' url) no_hash
            ∙ from-from b'#' url,
      )

  -- The pairs of the link that name the tag are the given one, and the others are those of the URL.
  pub set_tag_param-tag :
      (url encoded : List ℕ)
      → lacks b'#' encoded ≡ true
      → lacks b'&' encoded ≡ true
      → let pairs = split_on b'&' (query_of (set_tag_param urls url encoded)) in
        (filter (is_tag_param urls) pairs ≡ tag_pair urls encoded ∷ [])
        × (filter (is_kept urls) pairs ≡ filter (is_kept urls) (split_on b'&' (query_of url)))
  set_tag_param-tag url encoded h a =
      let (path, pairs, fragment) = set_tag_param-parts url encoded h a in
      let kept = filter (is_kept urls) (split_on b'&' (query_of url)) in
      let is_tag = tag_pair-is_tag encoded in
      (
        ap (filter (is_tag_param urls)) pairs
            ∙ filter-last (is_tag_param urls) kept (tag_pair urls encoded) is_tag
            ∙ ap (λ t. t ++ tag_pair urls encoded ∷ [])
                (filter-kept (split_on b'&' (query_of url))),
        ap (filter (is_kept urls)) pairs ∙ kept_twice (split_on b'&' (query_of url)) encoded,
      )
    where
      kept_twice :
          (pairs : List (List ℕ)) (encoded : List ℕ)
          → filter (is_kept urls) (filter (is_kept urls) pairs ++ tag_pair urls encoded ∷ [])
            ≡ filter (is_kept urls) pairs
      kept_twice [] encoded = rw (tag_pair-is_tag encoded) refl
      kept_twice (pair ∷ pairs) encoded = ground (arith, kept_twice pairs encoded)

  -- No pair that is kept is a tag to the reader.
  tags_read-kept : (pairs : List (List ℕ)) → tags_read read (filter (is_kept urls) pairs) ≡ []
  unfolding is_tag_param
  tags_read-kept [] = refl
  tags_read-kept (pair ∷ pairs) =
      let name = before b'=' pair in
      elim (Bool-cases (is_kept urls pair)) [
        | inl kept ↦ elim (Bool-cases (map to_lower (read name) == tag_name)) [
          | inl tag ↦
              let e =
                platform.reads_name name
                  ((codes_eq.test_iff (map to_lower (read name)) tag_name).0 tag) in
              let found : is_tag_param urls pair ≡ true = ap is_tag_name e ∙ tag in
              absurd (ground (arith, kept, found))
          | inr other ↦ rw (kept, other) (tags_read-kept pairs)
        ]
        | inr dropped ↦ rw dropped (tags_read-kept pairs)
      ]

  tags_read-last :
      (pairs : List (List ℕ)) (last : List ℕ)
      → tags_read read (pairs ++ last ∷ []) ≡ tags_read read pairs ++ tags_read read (last ∷ [])
  tags_read-last [] last = refl
  tags_read-last (pair ∷ pairs) last = ground (arith, tags_read-last pairs last)

  -- A reader of the query finds the text that was encoded, once.
  pub set_tag_param-read :
      (url text encoded : List ℕ)
      → urls.encode text ≡ some encoded
      → tags_read read (split_on b'&' (query_of (set_tag_param urls url encoded))) ≡ text ∷ []
  set_tag_param-read url text encoded e =
      let (hash, and, plain) = platform.encoded_plain text encoded e in
      let (path, pairs, fragment) = set_tag_param-parts url encoded hash and in
      let kept = filter (is_kept urls) (split_on b'&' (query_of url)) in
      let name : before b'=' (tag_pair urls encoded) ≡ tag_name =
        before-append b'=' tag_name encoded refl in
      let value : after b'=' (tag_pair urls encoded) ≡ encoded =
        after-append b'=' tag_name encoded refl in
      let same : (map to_lower (read (before b'=' (tag_pair urls encoded))) == tag_name) ≡ true =
        ap (λ n. map to_lower (read n) == tag_name) name
        ∙ ap (λ n. map to_lower n == tag_name) platform.reads_tag in
      ap (tags_read read) pairs
      ∙ tags_read-last kept (tag_pair urls encoded)
      ∙ ap (λ t. t ++ tags_read read (tag_pair urls encoded ∷ []))
          (tags_read-kept (split_on b'&' (query_of url)))
      ∙ rw same
          (ap (λ t. read t ∷ []) value ∙ ap (λ t. t ∷ []) (platform.reads_encoded text encoded e))

  -- A tag leaves a plain URL plain.
  pub set_tag_param-plain :
      (url encoded : List ℕ)
      → is_plain url ≡ true
      → is_plain encoded ≡ true
      → is_plain (set_tag_param urls url encoded) ≡ true
  unfolding set_tag_param
  set_tag_param-plain url encoded h k =
      let base = before-all (leb 33) b'#' url h in
      let path = before-all (leb 33) b'?' (before b'#' url) base in
      let query = after-all (leb 33) b'?' (before b'#' url) base in
      let kept =
        filter-all (leb 33) (is_kept urls) (split_on b'&' (query_of url))
          (split-all (leb 33) b'&' (query_of url) query) in
      let pair : is_plain (tag_pair urls encoded) ≡ true = k in
      let pairs : all (all (leb 33)) (tagged url encoded) ≡ true =
        all-append (all (leb 33)) (filter (is_kept urls) (split_on b'&' (query_of url)))
          (tag_pair urls encoded ∷ [])
        ∙ rw (kept, pair) refl in
      let joined = join-all (leb 33) b'&' (tagged url encoded) refl pairs in
      let fragment = from-all (leb 33) b'#' url h in
      let whole : is_plain (front url encoded) ≡ true =
        chars-append (leb 33) (path_of url) (b'?' ∷ join_with b'&' (tagged url encoded))
        ∙ rw (path, joined) refl in
      chars-append (leb 33) (front url encoded) (fragment_of url) ∙ rw (whole, fragment) refl
