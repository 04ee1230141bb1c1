-- ===== src/Registry/TokenService/Query.antt =====
-- internal/registry/auth.go: the query with which `requestToken` asks for a token.
use maze_registry_ui.Prelude.{
  ◌≡◌, refl, ap, ◌∙◌, List, [], ◌∷◌, ◌++◌, ◌&&◌, not, arith, append_assoc, append-nil,
  if◌then◌else◌, Bool-cases, inl, inr,
}
use maze_registry_ui.Prelude.Assoc.{insert, remove, lookup-insert, lookup-remove}
use maze_registry_ui.Prelude.Bytes.{Bytes, codes, bytes_eq, bytes_eq_iff, is_empty}
use maze_registry_ui.Prelude.Text.{fields}
use maze_registry_ui.Registry.Challenges.{AuthChallenge, param}
use maze_registry_ui.Registry.TokenService.{Values, values_of, add_value, add_scopes, token_query}

values_of-insert :
    (j k : Bytes) (vs : List Bytes) (q : Values)
    → values_of j (insert k vs q) ≡ (if bytes_eq k j then vs else values_of j q)
unfolding values_of
values_of-insert j k vs q = ground (arith, lookup-insert k j vs q)

values_of-remove :
    (j k : Bytes) (q : Values)
    → values_of j (remove k q) ≡ (if bytes_eq k j then [] else values_of j q)
unfolding values_of
values_of-remove j k q = ground (arith, lookup-remove k j q)

values_of-add_value :
    (j k v : Bytes) (q : Values)
    → values_of j (add_value k v q)
      ≡ (if bytes_eq k j then values_of j q ++ v ∷ [] else values_of j q)
unfolding add_value
values_of-add_value j k v q = elim (Bool-cases (bytes_eq k j)) [
  | inl e ↦
      let same : k ≡ j = (bytes_eq_iff k j).0 e in
      values_of-insert j k (values_of k q ++ v ∷ []) q
      ∙ rw e (ap (λ i. values_of i q ++ v ∷ []) same)
  | inr e ↦ values_of-insert j k (values_of k q ++ v ∷ []) q ∙ rw e refl
]

-- a key gets the scopes that are added, or keeps its values
values_of-add_scopes :
    (j : Bytes) (ss : List Bytes) (q : Values)
    → values_of j (add_scopes ss q)
      ≡ (if bytes_eq (codes "scope") j then values_of j q ++ ss else values_of j q)
unfolding add_scopes
values_of-add_scopes j [] q = ground (arith, append-nil (values_of j q))
values_of-add_scopes j (s ∷ ss) q =
    values_of-add_scopes j ss (add_value (codes "scope") s q)
    ∙ ground
        (arith, values_of-add_value j (codes "scope") s q, append_assoc (values_of j q) (s ∷ []) ss)

-- In the query with which requestToken asks for a token, the values of "scope" are the fields of
-- the scope of the challenge, the value of "service" is its service, and every other key, as
-- well as either of these that the challenge does not give, keeps the values that it has in the
-- URL of the realm.
pub token_query_values :
    (ch : AuthChallenge) (q : Values) (j : Bytes)
    → values_of j (token_query ch q) ≡ (
        if bytes_eq (codes "scope") j && not (is_empty (param (codes "scope") ch))
        then fields (param (codes "scope") ch)
        else if bytes_eq (codes "service") j && not (is_empty (param (codes "service") ch))
        then param (codes "service") ch ∷ []
        else values_of j q)
unfolding token_query
token_query_values ch q j =
    let service = param (codes "service") ch in
    let scope = param (codes "scope") ch in
    let q' = if not (is_empty service) then insert (codes "service") (service ∷ []) q else q in
    ground (
      arith,
      values_of-add_scopes j (fields scope) (remove (codes "scope") q'),
      values_of-remove j (codes "scope") q',
      values_of-insert j (codes "service") (service ∷ []) q,
    )
