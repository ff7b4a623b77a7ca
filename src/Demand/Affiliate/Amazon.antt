-- ===== src/Demand/Affiliate/Amazon.antt =====
-- packages/core/src/demand/affiliate/amazon.ts: Amazon links. A text is the list of its code points.
-- `Urls` stands for the URL functions of the platform.
use adgate.Prelude.{
  ℕ, Bool, false, ◌&&◌, ◌||◌, not, Option, none, some, List, [], ◌∷◌, ◌++◌, map, any, filter,
  is_empty, codes, codes_eq, ◌==◌,
}
use adgate.Demand.Exclusions.{to_lower}
use adgate.Demand.Affiliate.Text.{before, from, after, split_on, join_with}

-- `encodeURIComponent` and `decodeURIComponent`, which throw with `none`, whether a text is an
-- absolute http(s) URL, and the host of one.
pub record Urls : Type 0 where
  pub encode : List ℕ → Option (List ℕ)
  pub decode : List ℕ → Option (List ℕ)
  pub is_http_url : List ℕ → Bool
  pub hostname : List ℕ → List ℕ

pub record AmazonConfig : Type 0 where
  pub tag : List ℕ
  pub marketplace : Option (List ℕ)

abbrev storefront : List ℕ → List ℕ
storefront marketplace = codes "amazon." ++ marketplace

abbrev www_storefront : List ℕ → List ℕ
www_storefront marketplace = codes "www.amazon." ++ marketplace

unfoldable pub is_storefront : List ℕ → List ℕ → Bool
is_storefront lower marketplace =
    lower == storefront marketplace || lower == www_storefront marketplace

unfoldable pub is_amazon_host : List (List ℕ) → List ℕ → Option (List ℕ) → Bool
is_amazon_host marketplaces host (some marketplace) = is_storefront (map to_lower host) marketplace
is_amazon_host marketplaces host none = any (is_storefront (map to_lower host)) marketplaces

-- `tag`
abbrev pub tag_name : List ℕ
tag_name = codes "tag"

abbrev pub is_tag_name : Option (List ℕ) → Bool
is_tag_name none = false
is_tag_name (some name) = map to_lower name == tag_name

-- The query of a URL, which ends at the fragment.
abbrev pub query_of : List ℕ → List ℕ
query_of url = after b'?' (before b'#' url)

abbrev pub path_of : List ℕ → List ℕ
path_of url = before b'?' (before b'#' url)

-- The fragment, with its `#`.
abbrev pub fragment_of : List ℕ → List ℕ
fragment_of url = from b'#' url

module _ (urls : Urls) where
  unfoldable pub is_tag_param : List ℕ → Bool
  is_tag_param pair = is_tag_name (urls.decode (before b'=' pair))

  -- The pairs of a query that are kept beside the tag.
  abbrev pub is_kept : List ℕ → Bool
  is_kept pair = not (is_empty pair) && not (is_tag_param pair)

  -- `tag=` with the encoded tag.
  abbrev pub tag_pair : List ℕ → List ℕ
  tag_pair encoded = tag_name ++ b'=' ∷ encoded

  -- With the encoded tag.
  unfoldable pub set_tag_param : List ℕ → List ℕ → List ℕ
  set_tag_param url encoded =
      path_of url
      ++ b'?'
        ∷ join_with b'&' (filter is_kept (split_on b'&' (query_of url)) ++ tag_pair encoded ∷ [])
      ++ fragment_of url
