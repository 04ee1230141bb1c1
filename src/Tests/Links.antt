-- ===== src/Tests/Links.antt =====
-- `safeReturn`, `splitRepo` and `splitEnv` on short inputs.
use maze_registry_ui.Prelude.{◌≡◌, ◌⊎◌, refl, [], ◌∷◌, true, false}
use maze_registry_ui.Prelude.Bytes.{Bytes, codes}
use maze_registry_ui.Prelude.Text.{has_prefix, cut}
use maze_registry_ui.Server.Links.{
  is_rejected, any_rejected, second_is_slash, safe_return, split_repo, pull_command, split_env,
}
use maze_registry_ui.Server.Links.Safe.{IsLocal, names_host, without_breaks, safe_return-IsLocal}

program : Unit {0}
unfolding has_prefix cut is_rejected any_rejected second_is_slash safe_return split_repo
    pull_command split_env
program = tt

abbrev home : Bytes
home = codes "/ui/r/hub"

returned :
    (safe_return (codes "/ui") home (codes "/ui/r/hub?q=a") ≡ codes "/ui/r/hub?q=a")
    × (safe_return [] home (codes "//evil.com") ≡ home)
    × (safe_return [] home (codes "/\\evil.com") ≡ home)
    × (safe_return [] home (codes "/\tevil.com") ≡ home)
unfolding program
returned = (refl, refl, refl, refl)

commands :
    (pull_command (codes "h") (codes "a/b") (codes "1") ≡ codes "docker pull h/a/b:1")
    × (split_env (codes "A=b=c" ∷ codes "D" ∷ [])
        ≡ record { key = codes "A"; value = codes "b=c" }
          ∷ record { key = codes "D"; value = [] }
          ∷ [])
unfolding program
commands = (refl, refl)

safe_return-IsLocal_example :
    ((codes "/ui/x" ≡ codes "/ui/x")
      × IsLocal (codes "/ui") (codes "/ui/x")
      × (names_host (without_breaks (codes "/ui/x")) ≡ false))
    ⊎ ((codes "/ui/x" ≡ home) × ¬ IsLocal (codes "/ui") (codes "/ui/x"))
unfolding program
safe_return-IsLocal_example = safe_return-IsLocal (codes "/ui") home (codes "/ui/x")

hosts :
    (names_host (without_breaks (codes "/\\evil.com")) ≡ true)
    × (names_host (without_breaks (codes "/\t/evil.com")) ≡ true)
    × (names_host (without_breaks (codes "/r/evil.com")) ≡ false)
hosts = (refl, refl, refl)
