-- ===== src/Server/Display.antt =====
-- internal/server/humanize.go and middleware.go: the texts of digests and ages, and the headers of
-- `securityHeaders`. `time.Time.Format` is a parameter, and the zero time is `none`.
use maze_registry_ui.Prelude.{
  ℕ, ◌*◌, ◌-◌, ◌/◌, List, [], ◌∷◌, ◌++◌, Option, none, some, ltb, if◌then◌else◌, length, take,
}
use maze_registry_ui.Prelude.Assoc.{insert}
use maze_registry_ui.Prelude.Bytes.{Bytes, codes, is_empty}
use maze_registry_ui.Prelude.Text.{cut}

-- U+2014 in UTF-8
abbrev em_dash : Bytes
em_dash = 226 ∷ 128 ∷ 148 ∷ []

abbrev pub first_twelve : Bytes → Bytes
first_twelve s = if ltb 12 (length s) then take 12 s else s

unfoldable pub short_digest : Bytes → Bytes
unfolding cut
short_digest d =
    if is_empty d
    then em_dash
    else elim (cut b':' d) [ some (_, hex) ↦ first_twelve hex | none ↦ first_twelve d ]

-- in nanoseconds
abbrev minute : ℕ
minute = 60 * 1000000000

abbrev hour : ℕ
hour = 60 * minute

abbrev day : ℕ
day = 24 * hour

module _ (itoa : ℕ → Bytes) (format : Bytes → ℕ → Bytes) where
  -- `humanTime`, called at `now`; a time after `now` has a negative age
  unfoldable pub human_time : ℕ → Option ℕ → Bytes
  human_time now none = em_dash
  human_time now (some t) =
      let d = now - t in
      if ltb now t
      then format (codes "2006-01-02") t
      else if ltb d minute
      then codes "just now"
      else if ltb d hour
      then itoa (d / minute) ++ codes "m ago"
      else if ltb d day
      then itoa (d / hour) ++ codes "h ago"
      else if ltb d (30 * day)
      then itoa (d / day) ++ codes "d ago"
      else if ltb d (365 * day)
      then itoa (d / (30 * day)) ++ codes "mo ago"
      else format (codes "2006-01-02") t

  unfoldable pub full_time : Option ℕ → Bytes
  full_time none = codes "unknown"
  full_time (some t) = format (codes "2006-01-02 15:04:05 UTC") t

unfoldable pub content_security_policy : Bytes → Bytes
content_security_policy nonce =
    codes "default-src 'none'; script-src 'self'; style-src 'self' 'nonce-"
    ++ (nonce
        ++ codes
            "'; img-src 'self' data:; font-src 'self'; connect-src 'self'; manifest-src 'self'; form-action 'self'; base-uri 'none'; frame-ancestors 'none'")

-- the headers that `securityHeaders` sets
unfoldable pub security_headers : Bytes → List (Bytes × Bytes) → List (Bytes × Bytes)
unfolding content_security_policy insert
security_headers nonce h = insert (codes "X-Frame-Options") (codes "DENY") (
    insert (codes "Referrer-Policy") (codes "same-origin") (
      insert (codes "X-Content-Type-Options") (codes "nosniff")
        (insert (codes "Content-Security-Policy") (content_security_policy nonce) h)))
