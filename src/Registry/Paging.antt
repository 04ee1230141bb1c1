-- ===== src/Registry/Paging.antt =====
-- internal/registry/client.go: page sizes, the Link header and the cursor of the next page. The
-- package net/url is a record of operations.
pub mod Links
pub mod RoundTrip
use maze_registry_ui.Prelude.{
  ℕ, suc, ◌+◌, ◌-◌, List, [], ◌∷◌, ◌++◌, Bool, ◌&&◌, ◌||◌, true, false, not, Option, none, some,
  ltb, leb, ◌==◌, if◌then◌else◌, length, take, drop,
}
use mathlib.Core.Option
use maze_registry_ui.Prelude.Assoc.{insert, lookup}
use maze_registry_ui.Prelude.Bytes.{Bytes, codes, is_empty}
use maze_registry_ui.Prelude.Int.{ℤ}
use maze_registry_ui.Prelude.Text.{split, cut, trim_space, to_lower, fields, equal_fold}

abbrev pub default_page_size : ℕ
default_page_size = 100

abbrev pub max_catalog_page_size : ℕ
max_catalog_page_size = 1000

-- the result is positive
unfoldable pub clamp_page_size : ℤ → ℕ
clamp_page_size (ℤ.negsuc n) = default_page_size
clamp_page_size (ℤ.pos n) =
    if leb n 0
    then default_page_size
    else if ltb max_catalog_page_size n
    then max_catalog_page_size
    else n

unfoldable pub last_of : List Bytes → Bytes
last_of [] = []
last_of (x ∷ xs) = let rest = last_of xs in elim xs [ [] ↦ x | y ∷ ys ↦ rest ]

-- The variables of `splitLinkHeader`; `escaped` is set between a backslash in a quoted string and
-- the byte after it, which the loop takes in one turn.
pub record LinkScan : Type 0 where
  pub out : List Bytes
  pub current : Bytes
  pub in_angle : Bool
  pub in_quotes : Bool
  pub escaped : Bool

-- the end of a link
unfoldable pub flush : LinkScan → LinkScan
flush s = record s {
  out = if is_empty (trim_space s.current) then s.out else s.out ++ trim_space s.current ∷ [];
  current = [];
}

unfoldable pub write_byte : ℕ → LinkScan → LinkScan
write_byte c s = record s { current = s.current ++ c ∷ [] }

-- one byte of the loop of `splitLinkHeader`
unfoldable pub scan_byte : LinkScan → ℕ → LinkScan
unfolding flush write_byte
scan_byte s c =
    if s.escaped
    then write_byte c (record s { escaped = false })
    else if c == b'\\' && s.in_quotes
    then write_byte c (record s { escaped = true })
    else if c == b'"'
    then write_byte c (record s { in_quotes = not s.in_quotes })
    else if c == b'<' && not s.in_quotes
    then write_byte c (record s { in_angle = true })
    else if c == b'>' && not s.in_quotes
    then write_byte c (record s { in_angle = false })
    else if c == b',' && not s.in_angle && not s.in_quotes
    then flush s
    else write_byte c s

unfoldable pub scan_bytes : LinkScan → Bytes → LinkScan
unfolding scan_byte
scan_bytes s [] = s
scan_bytes s (c ∷ h) = scan_bytes (scan_byte s c) h

abbrev pub scan_start : LinkScan
scan_start = record { out = []; current = []; in_angle = false; in_quotes = false; escaped = false }

unfoldable pub split_link_header : Bytes → List Bytes
unfolding scan_bytes flush
split_link_header header = (flush (scan_bytes scan_start header)).out

-- `strings.IndexByte`
unfoldable pub index_byte : ℕ → Bytes → Option ℕ
index_byte c [] = none
index_byte c (x ∷ s) = let rest = index_byte c s in if x == c then some 0 else Option.map suc rest

-- A Go slice `s[:len(s)-1]`
unfoldable pub without_last : Bytes → Bytes
without_last s = take (length s - 1) s

-- the last byte of what is not empty
unfoldable pub last_byte : Bytes → ℕ
last_byte [] = 0
last_byte (x ∷ xs) = let rest = last_byte xs in elim xs [ [] ↦ x | y ∷ ys ↦ rest ]

-- a quoted value without its quotes
unfoldable pub unquote : Bytes → Bytes
unfolding last_byte without_last
unquote [] = []
unquote (c ∷ s) =
    if leb 1 (length s) && c == b'"' && last_byte s == b'"' then without_last s else c ∷ s

abbrev pub Params : Type 0
Params = List (Bytes × Bytes)

-- one turn of the loop of `parseLink`
unfoldable pub add_param : Bytes → Params → Params
unfolding unquote
add_param part params = elim (cut b'=' (trim_space part)) [
  | none ↦ params
  | some (key, value) ↦ insert (to_lower (trim_space key)) (unquote (trim_space value)) params
]

unfoldable pub add_params : List Bytes → Params → Params
unfolding add_param
add_params [] params = params
add_params (part ∷ parts) params = add_params parts (add_param part params)

-- the link between its brackets, and its parameters
unfoldable pub parse_link : Bytes → Bytes × Params
unfolding index_byte add_params
parse_link link = elim (index_byte b'<' link) [
  | none ↦ ([], [])
  | some start ↦ elim (index_byte b'>' link) [
    | none ↦ ([], [])
    | some end ↦ if ltb end start then ([], []) else (
      trim_space (take (end - (start + 1)) (drop (start + 1) link)),
      add_params (split b';' (drop (end + 1) link)) [],
    )
  ]
]

-- the loop of `hasRel`
unfoldable pub any_fold : List Bytes → Bytes → Bool
any_fold [] want = false
any_fold (r ∷ rs) want = equal_fold r want || any_fold rs want

unfoldable pub has_rel : Bytes → Bytes → Bool
unfolding any_fold
has_rel rel want = any_fold (fields rel) want

-- `params["rel"]`
unfoldable pub rel_of : Params → Bytes
rel_of params = elim (lookup (codes "rel") params) [ none ↦ [] | some v ↦ v ]

-- what the client calls of net/url: `url.Parse`, `IsAbs`, `ResolveReference` and `Query().Get`
pub record UrlPackage : Type 1 where
  pub Url : Type 0
  pub parse : Bytes → Option Url
  pub is_abs : Url → Bool
  pub resolve_reference : Url → Url → Url
  pub query : Bytes → Url → Bytes

module _ (net : UrlPackage) where
  -- the URL that a target stands for
  unfoldable pub resolve_target : Bytes → Bytes → Option net.Url
  resolve_target base target = elim (net.parse target) [
    | none ↦ none
    | some u ↦
        if net.is_abs u
        then some u
        else elim (net.parse base) [ none ↦ some u | some b ↦ some (net.resolve_reference b u) ]
  ]

  -- the cursor of one link, empty where the loop goes on to the next
  unfoldable pub link_cursor : Bytes → Bytes × Params → Bytes
  unfolding resolve_target
  link_cursor base (target, params) =
      if is_empty target || not (has_rel (rel_of params) (codes "next"))
      then []
      else elim (resolve_target base target) [ none ↦ [] | some u ↦ net.query (codes "last") u ]

  -- the loop of `parseLinkNextLast`
  unfoldable pub first_cursor : Bytes → List Bytes → Bytes
  unfolding link_cursor
  first_cursor base [] = []
  first_cursor base (link ∷ links) =
      let rest = first_cursor base links in
      let cursor = link_cursor base (parse_link link) in if is_empty cursor then rest else cursor

  unfoldable pub parse_link_next_last : Bytes → Bytes → Bytes
  unfolding first_cursor
  parse_link_next_last header base = first_cursor base (split_link_header header)

  unfoldable pub next_cursor : Bytes → Bytes → Bytes → ℕ → ℕ → Bytes
  unfolding parse_link_next_last
  next_cursor base link_header last_item returned requested =
      let cursor = parse_link_next_last link_header base in
      if not (is_empty cursor)
      then cursor
      else if returned == requested && not (is_empty last_item)
      then last_item
      else []
