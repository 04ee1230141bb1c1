-- ===== src/Registry/Client/Deletion.antt =====
-- internal/registry/client.go: what `DeleteManifest` does on each of its ways.
use maze_registry_ui.Prelude.{
  ◌≡◌, ◌⊎◌, refl, sym, subst, ◌∙◌, [], Bool, ◌||◌, ◌&&◌, leb, ◌≢◌, true, false, arith, inl, inr,
  Bool-cases, if◌then◌else◌, ◌==◌,
}
use maze_registry_ui.Prelude.Bytes.{Bytes, codes}
use maze_registry_ui.Registry.Auth.{Response, response, send_error}
use maze_registry_ui.Registry.Auth.Handshake.{Sent-cases}
use maze_registry_ui.Registry.Cache.{invalidate_repo}
use maze_registry_ui.Registry.Names.{
  Checked, valid, invalid, NameError, validate_repository, validate_digest,
}
use maze_registry_ui.Registry.Client.{
  Setup, Client, Outcome, done, fail, ClientError, name_error, request_error, delete_denied, Action,
  ◌>>=◌, ◌>>◌, require, request, check_response,
}
use maze_registry_ui.Registry.Client.Steps.{
  Checked-cases, gate_shut, gate_open, require_bad, require_good, bind_done, bind_fail,
  request_answered, request_failed,
}
use maze_registry_ui.Registry.Client.Content.{
  delete_manifest, deleted, invalidate_cached, manifest_url,
}

-- the error is nil
unfoldable pub succeeded : {E A : Type 0} → Outcome E A → Bool
succeeded (done a) = true
succeeded (fail e) = false

module _ {E S : Type 0} (w : Setup E S) where
  abbrev delete_url : Bytes → Bytes → Bytes
  delete_url repo digest = manifest_url w repo digest

  -- `DeleteManifest` from its request on, and from the test of its digest on
  abbrev sent_part : Bytes → Bytes → Action E S Unit
  sent_part repo digest =
      request w (codes "DELETE") (manifest_url w repo digest) []
      >>= deleted w repo (manifest_url w repo digest)

  abbrev digest_part : Bytes → Bytes → Action E S Unit
  digest_part repo digest = require (validate_digest digest) >> sent_part repo digest

  abbrev repo_part : Bytes → Bytes → Action E S Unit
  repo_part repo digest = require (validate_repository repo) >> digest_part repo digest

  run_off :
      (repo digest : Bytes) (c : Client S)
      → w.delete_enabled ≡ false
      → delete_manifest w repo digest c ≡ (c, fail delete_denied)
  unfolding delete_manifest
  run_off repo digest c off = gate_shut w.delete_enabled delete_denied (repo_part repo digest) c off

  run_on :
      (repo digest : Bytes) (c : Client S)
      → w.delete_enabled ≡ true
      → delete_manifest w repo digest c ≡ repo_part repo digest c
  unfolding delete_manifest
  run_on repo digest c on = gate_open w.delete_enabled delete_denied (repo_part repo digest) c on

  run_bad_repo :
      (repo digest : Bytes) (c : Client S) (e : NameError)
      → w.delete_enabled ≡ true
      → validate_repository repo ≡ invalid e
      → delete_manifest w repo digest c ≡ (c, fail (name_error e))
  run_bad_repo repo digest c e on bad =
      run_on repo digest c on
      ∙ require_bad (validate_repository repo) e (digest_part repo digest) c bad

  run_bad_digest :
      (repo digest : Bytes) (c : Client S) (e : NameError)
      → w.delete_enabled ≡ true
      → validate_repository repo ≡ valid
      → validate_digest digest ≡ invalid e
      → delete_manifest w repo digest c ≡ (c, fail (name_error e))
  run_bad_digest repo digest c e on fine bad =
      run_on repo digest c on
      ∙ require_good (validate_repository repo) (digest_part repo digest) c fine
      ∙ require_bad (validate_digest digest) e (sent_part repo digest) c bad

  run_sent :
      (repo digest : Bytes) (c : Client S)
      → w.delete_enabled ≡ true
      → validate_repository repo ≡ valid
      → validate_digest digest ≡ valid
      → delete_manifest w repo digest c ≡ sent_part repo digest c
  run_sent repo digest c on fine good =
      run_on repo digest c on
      ∙ require_good (validate_repository repo) (digest_part repo digest) c fine
      ∙ require_good (validate_digest digest) (sent_part repo digest) c good

  -- what comes of an answer of the registry to the request
  pub record IsAnswered (repo : Bytes) (answer : Response) (c : Client S)
      (r : Client S × Outcome E Unit) : Type 0 where
    pub same_http : r.0.http ≡ c.http
    pub cache : r.0.cache ≡ (
        if answer.status_code == 202 || answer.status_code == 200
        then invalidate_repo repo c.cache
        else c.cache)
    pub result : succeeded r.1 ≡ (leb 200 answer.status_code && leb answer.status_code 299)

  deleted-IsAnswered :
      (repo url : Bytes) (r : Response) (c : Client S)
      → IsAnswered repo r c (deleted w repo url r c)
  unfolding deleted invalidate_cached check_response succeeded
  deleted-IsAnswered repo url r c = record {
    same_http = ground arith;
    cache = ground arith;
    result = ground arith;
  }

  -- Nothing was requested, and nothing in the cache was touched.
  pub record IsRefused (repo digest : Bytes) (c : Client S) (r : Client S × Outcome E Unit)
      : Type 0 where
    pub untouched : r.0 ≡ c
    pub failed : succeeded r.1 ≡ false
    pub reason :
        (w.delete_enabled ≡ false)
        ⊎ ((validate_repository repo ≢ valid) ⊎ (validate_digest digest ≢ valid))

  -- One request was made, for names that are valid.
  pub record IsSent (repo digest : Bytes) (c : Client S) (r : Client S × Outcome E Unit)
      : Type 0 where
    pub enabled : w.delete_enabled ≡ true
    pub valid_repo : validate_repository repo ≡ valid
    pub valid_digest : validate_digest digest ≡ valid
    pub one_request : r.0.http ≡ (w.perform (codes "DELETE") (delete_url repo digest) [] c.http).0
    pub outcome :
        ((e : E) × ((w.perform (codes "DELETE") (delete_url repo digest) [] c.http).1
            ≡ send_error e)
          × (r.1 ≡ fail (request_error e))
          × (r.0.cache ≡ c.cache))
        ⊎ ((answer : Response) × ((w.perform (codes "DELETE") (delete_url repo digest) [] c.http).1
              ≡ response answer)
            × IsAnswered repo answer
                (record c {
                  http = (w.perform (codes "DELETE") (delete_url repo digest) [] c.http).0;
                })
                r)

  sent_part-IsSent :
      (repo digest : Bytes) (c : Client S)
      → w.delete_enabled ≡ true
      → validate_repository repo ≡ valid
      → validate_digest digest ≡ valid
      → IsSent repo digest c (sent_part repo digest c)
  sent_part-IsSent repo digest c on fine good =
      let (s, got) = w.perform (codes "DELETE") (delete_url repo digest) [] c.http in
      let ask = request w (codes "DELETE") (delete_url repo digest) [] in
      let next = deleted w repo (delete_url repo digest) in
      elim (Sent-cases got) [
        | inr (e, h) ↦
            subst (IsSent repo digest c)
              (sym (
                bind_fail ask next c (record c { http = s }) (request_error e)
                  (request_failed w (codes "DELETE") (delete_url repo digest) [] c e h)))
              (record {
                enabled = on;
                valid_repo = fine;
                valid_digest = good;
                one_request = refl;
                outcome = inl (e, h, refl, refl);
              })
        | inl (answer, h) ↦
            let after =
              deleted-IsAnswered repo (delete_url repo digest) answer (record c { http = s }) in
            subst (IsSent repo digest c)
              (sym (
                bind_done ask next c (record c { http = s }) answer
                  (request_answered w (codes "DELETE") (delete_url repo digest) [] c answer h)))
              (record {
                enabled = on;
                valid_repo = fine;
                valid_digest = good;
                one_request = after.same_http;
                outcome = inr (answer, h, after);
              })
      ]

  refused :
      (repo digest : Bytes) (c : Client S) (e : ClientError E)
      → ((w.delete_enabled ≡ false)
          ⊎ ((validate_repository repo ≢ valid) ⊎ (validate_digest digest ≢ valid)))
      → delete_manifest w repo digest c ≡ (c, fail e)
      → IsRefused repo digest c (delete_manifest w repo digest c)
  unfolding succeeded
  refused repo digest c e why h =
      subst (IsRefused repo digest c) (sym h)
        (record { untouched = refl; failed = refl; reason = why })

  not_valid : (k : Checked) (e : NameError) → k ≡ invalid e → k ≢ valid
  not_valid k e h g = cc

  -- DeleteManifest either fails without a request and without a change to the client, and then
  -- deletion is disabled or the repository or the digest is not valid; or deletion is enabled
  -- and both are valid, and it makes one DELETE request. Then a request error is returned and
  -- the cache kept; after an answer the result is nil if and only if the status is from 200 to
  -- 299, and the cached entries of the repository and of the global scope are deleted if and
  -- only if the status is 200 or 202, with no other change to the cache.
  pub delete_manifest_cases :
      (repo digest : Bytes) (c : Client S)
      → IsRefused repo digest c (delete_manifest w repo digest c)
        ⊎ IsSent repo digest c (delete_manifest w repo digest c)
  delete_manifest_cases repo digest c = elim (Bool-cases w.delete_enabled) [
    | inr off ↦ inl (refused repo digest c delete_denied (inl off) (run_off repo digest c off))
    | inl on ↦ elim (Checked-cases (validate_repository repo)) [
      | inr (e, bad) ↦ inl (
          refused repo digest c (name_error e) (inr (inl (not_valid _ e bad)))
            (run_bad_repo repo digest c e on bad))
      | inl fine ↦ elim (Checked-cases (validate_digest digest)) [
        | inr (e, bad) ↦ inl (
            refused repo digest c (name_error e) (inr (inr (not_valid _ e bad)))
              (run_bad_digest repo digest c e on fine bad))
        | inl good ↦ inr (
            subst (IsSent repo digest c) (sym (run_sent repo digest c on fine good))
              (sent_part-IsSent repo digest c on fine good))
      ]
    ]
  ]
