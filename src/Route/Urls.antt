-- ===== src/Route/Urls.antt =====
-- internal/core/parser/urlutil/urlutil.go: paths with their parameters unified. The patterns are
-- regular expressions that match anywhere in a segment; each is a scan of the segment's bytes. Bytes
-- are read as they stand, so a newline is like any other byte.
use Prim.Native.Nat.{ℕ}
use mathlib.Core.Bool.{Bool, false, ◌&&◌, ◌||◌, not}
use mathlib.Core.Option.{Option, none, some}
use mathlib.Core.List.{[], ◌∷◌, map}
use flash_code_graph.Common.Tests.{leb, ◌==◌, if◌then◌else◌}
use flash_code_graph.Common.Lists.{all, any, is_empty}
use flash_code_graph.Common.Text.{
  Text, text, text_eq, has_prefix, contains, cut_first, split, join, trim_space,
}

-- c[^c]+c: one byte at least up to the closing byte, none of them the closing byte
unfoldable pub closes : ℕ → Text → Bool
closes close [] = false
closes close (c ∷ rest) = not (c == close) && any (λ d. d == close) rest

-- open[^close]+close, anywhere
unfoldable pub has_bracket : ℕ → ℕ → Text → Bool
has_bracket open_byte close [] = false
has_bracket open_byte close (c ∷ rest) =
    (c == open_byte && closes close rest) || has_bracket open_byte close rest

-- [a-zA-Z_]
unfoldable pub is_word_start : ℕ → Bool
is_word_start c = (leb b'a' c && leb c b'z') || (leb b'A' c && leb c b'Z') || c == b'_'

-- :[a-zA-Z_]\w*, anywhere: the rest of the name may be empty
unfoldable pub has_colon_name : Text → Bool
has_colon_name [] = false
has_colon_name (c ∷ []) = false
has_colon_name (c ∷ d ∷ rest) = (c == b':' && is_word_start d) || has_colon_name (d ∷ rest)

-- \$\{[^}]+\}, anywhere
unfoldable pub has_template : Text → Bool
has_template [] = false
has_template (c ∷ []) = false
has_template (c ∷ d ∷ rest) =
    (c == b'$' && d == b'{' && closes b'}' rest) || has_template (d ∷ rest)

-- The loop over `paramPatterns`.
unfoldable pub has_param_pattern : Text → Bool
has_param_pattern seg =
    has_bracket b'{' b'}' seg
    || has_colon_name seg
    || has_bracket b'<' b'>' seg
    || has_bracket b'[' b']' seg
    || has_template seg

unfoldable pub is_numeric : Text → Bool
is_numeric seg = not (is_empty seg) && all (λ c. leb b'0' c && leb c b'9') seg

abbrev pub param : Text
param = text "{param}"

-- The body of the loop over the segments.
unfoldable pub normalize_segment : Text → Text
normalize_segment seg =
    if is_empty seg then seg else if has_param_pattern seg || is_numeric seg then param else seg

unfoldable pub normalize_path_params : Text → Text
normalize_path_params path = join b'/' (map normalize_segment (split b'/' path))

-- What the package net/url makes of an address: the host and the path, `none` for an error.
pub record UrlParser : Type 0 where
  pub url_parse : Text → Option (Text × Text)

-- strings.Trim(s, "`") from the left
unfoldable pub trim_ticks_left : Text → Text
trim_ticks_left [] = []
trim_ticks_left (c ∷ s) = let rest = trim_ticks_left s in if c == 96 then rest else c ∷ s

unfoldable pub trim_ticks_right : Text → Text
trim_ticks_right [] = []
trim_ticks_right (c ∷ s) = elim (trim_ticks_right s) [
  | [] ↦ if c == 96 then [] else c ∷ []
  | d ∷ t ↦ c ∷ d ∷ t
]

-- strings.SplitN(path, "?", 2)[0]
unfoldable pub before_query : Text → Text
before_query path = elim (cut_first b'?' path) [ none ↦ path | some (before, query) ↦ before ]

-- The path and the service name before the path is cleaned up.
unfoldable pub parse_address : UrlParser → Text → Text × Text
parse_address parser raw_url =
    if contains raw_url (text "://")
    then elim (parser.url_parse raw_url) [ none ↦ ([], []) | some (host, path) ↦ (path, host) ]
    else ([], [])

unfoldable pub local_name : Text → Text
local_name service_name =
    if text_eq service_name (text "localhost")
      || text_eq service_name (text "127.0.0.1")
      || text_eq service_name (text "0.0.0.0")
    then []
    else service_name

-- `NormalizeURL`: the path and the service name.
unfoldable pub normalize_url : UrlParser → Text → Text × Text
normalize_url parser raw_url =
    let trimmed = trim_space raw_url in
    let bare = trim_ticks_right (trim_ticks_left trimmed) in
    let (parsed, service_name) = parse_address parser bare in
    let path = before_query (if is_empty parsed then bare else parsed) in
    if is_empty trimmed
    then ([], [])
    else if contains path (text "+") || contains path (text "concat")
    then ([], service_name)
    else (
      normalize_path_params (if has_prefix path (text "/") then path else b'/' ∷ path),
      local_name service_name,
    )
