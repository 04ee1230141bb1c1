-- ===== src/Tests/Display.antt =====
-- Texts for digests and ages.
use maze_registry_ui.Prelude.{◌≡◌, refl, ℕ, ◌*◌, [], ◌∷◌, some}
use maze_registry_ui.Prelude.Bytes.{Bytes, codes}
use maze_registry_ui.Prelude.Text.{cut}
use maze_registry_ui.Server.Display.{short_digest, human_time}

abbrev itoa : ℕ → Bytes
itoa n = n ∷ []

abbrev format : Bytes → ℕ → Bytes
format layout t = layout

abbrev second : ℕ
second = 1000000000

digests :
    (short_digest (codes "sha256:0123456789abcdef") ≡ codes "0123456789ab")
    × (short_digest (codes "md5:01") ≡ codes "01")
    × (short_digest (codes "0123456789abcdef") ≡ codes "0123456789ab")
unfolding short_digest cut
digests = (refl, refl, refl)

ages :
    (human_time itoa format (59 * second) (some 0) ≡ codes "just now")
    × (human_time itoa format (60 * second) (some 0) ≡ 1 ∷ codes "m ago")
    × (human_time itoa format (30 * 86400 * second) (some 0) ≡ 1 ∷ codes "mo ago")
    × (human_time itoa format 0 (some 1) ≡ codes "2006-01-02")
unfolding human_time
ages = (refl, refl, refl, refl)
