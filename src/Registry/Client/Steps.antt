-- ===== src/Registry/Client/Steps.antt =====
-- internal/registry/client.go: how the steps of a method go on after a value and after an error.
use maze_registry_ui.Prelude.{
  ◌≡◌, ◌⊎◌, refl, sym, ap, ◌∙◌, Bool, not, true, false, inl, inr, if◌then◌else◌,
}
use maze_registry_ui.Prelude.Bytes.{Bytes}
use maze_registry_ui.Registry.Auth.{Response, Sent, response, send_error}
use maze_registry_ui.Registry.Names.{Checked, valid, invalid, NameError}
use maze_registry_ui.Registry.Client.{
  Setup, Client, Outcome, done, fail, ClientError, name_error, request_error, Action, raise, ◌>>=◌,
  ◌>>◌, require, request,
}

pub Checked-cases : (c : Checked) → (c ≡ valid) ⊎ ((e : NameError) × (c ≡ invalid e))
Checked-cases valid = inl refl
Checked-cases (invalid e) = inr (e, refl)

done_ne_fail :
    {E S A : Type 0} {c c' : Client S} {a : A} {e : ClientError E}
    → ¬ (◌≡◌ {A = Client S × Outcome E A} (c, done a) (c', fail e))
done_ne_fail h = cc

module _ {E S : Type 0} where
  pub gate_shut :
      {A : Type 0} (b : Bool) (e : ClientError E) (m : Action E S A) (c : Client S)
      → b ≡ false
      → (if not b then raise e else m) c ≡ (c, fail e)
  gate_shut b e m c h = rw h refl

  pub gate_open :
      {A : Type 0} (b : Bool) (e : ClientError E) (m : Action E S A) (c : Client S)
      → b ≡ true
      → (if not b then raise e else m) c ≡ m c
  gate_open b e m c h = rw h refl

  pub require_bad :
      {A : Type 0} (k : Checked) (e : NameError) (m : Action E S A) (c : Client S)
      → k ≡ invalid e
      → (require {E = E} {S = S} k >> m) c ≡ (c, fail (name_error e))
  unfolding require
  require_bad k e m c h = rw h refl

  pub require_good :
      {A : Type 0} (k : Checked) (m : Action E S A) (c : Client S)
      → k ≡ valid
      → (require {E = E} {S = S} k >> m) c ≡ m c
  unfolding require
  require_good k m c h = rw h refl

  abbrev go_on :
      {A B : Type 0} → (A → Action E S B) → Client S × Outcome E A → Client S × Outcome E B
  go_on f (c, done a) = f a c
  go_on f (c, fail e) = (c, fail e)

  bind_lem :
      {A B : Type 0} (m : Action E S A) (f : A → Action E S B) (c : Client S)
      → (m >>= f) c ≡ go_on f (m c)
  bind_lem m f c = elim (m c).1 [ done a ↦ refl | fail e ↦ refl ]

  pub bind_done :
      {A B : Type 0} (m : Action E S A) (f : A → Action E S B) (c c' : Client S) (a : A)
      → m c ≡ (c', done a)
      → (m >>= f) c ≡ f a c'
  bind_done m f c c' a h = bind_lem m f c ∙ ap (go_on f) h

  pub bind_fail :
      {A B : Type 0} (m : Action E S A) (f : A → Action E S B) (c c' : Client S) (e : ClientError E)
      → m c ≡ (c', fail e)
      → (m >>= f) c ≡ (c', fail e)
  bind_fail m f c c' e h = bind_lem m f c ∙ ap (go_on f) h

  go_on_done :
      {A B : Type 0} (f : A → Action E S B) (x : Client S × Outcome E A) (c' : Client S) (b : B)
      → go_on f x ≡ (c', done b)
      → (c₁ : Client S) × (a : A) × (x ≡ (c₁, done a)) × (f a c₁ ≡ (c', done b))
  go_on_done f (c, done a) c' b h = (c, a, refl, h)
  go_on_done f (c, fail e) c' b h = absurd (done_ne_fail (sym h))

  -- both steps of a method that ends without an error do
  pub bind_inv :
      {A B : Type 0} (m : Action E S A) (f : A → Action E S B) (c c' : Client S) (b : B)
      → (m >>= f) c ≡ (c', done b)
      → (c₁ : Client S) × (a : A) × (m c ≡ (c₁, done a)) × (f a c₁ ≡ (c', done b))
  bind_inv m f c c' b h = go_on_done f (m c) c' b (sym (bind_lem m f c) ∙ h)

-- what a request leaves and gives
abbrev pub requested : {E S : Type 0} → Client S → S → Sent E → Client S × Outcome E Response
requested c s (response r) = (record c { http = s }, done r)
requested c s (send_error e) = (record c { http = s }, fail (request_error e))

module _ {E S : Type 0} (w : Setup E S) where
  pub request_lem :
      (method url accept : Bytes) (c : Client S)
      → request w method url accept c
        ≡ requested c (w.perform method url accept c.http).0 (w.perform method url accept c.http).1
  unfolding request
  request_lem method url accept c = elim (w.perform method url accept c.http).1 [
    | response r ↦ refl
    | send_error e ↦ refl
  ]

  pub request_answered :
      (method url accept : Bytes) (c : Client S) (r : Response)
      → (w.perform method url accept c.http).1 ≡ response r
      → request w method url accept c
        ≡ (record c { http = (w.perform method url accept c.http).0 }, done r)
  request_answered method url accept c r h =
      request_lem method url accept c ∙ ap (requested c (w.perform method url accept c.http).0) h

  pub request_failed :
      (method url accept : Bytes) (c : Client S) (e : E)
      → (w.perform method url accept c.http).1 ≡ send_error e
      → request w method url accept c
        ≡ (record c { http = (w.perform method url accept c.http).0 }, fail (request_error e))
  request_failed method url accept c e h =
      request_lem method url accept c ∙ ap (requested c (w.perform method url accept c.http).0) h
