-- ===== src/Credentials/Tokens.antt =====
-- A token serves the scope and the credentials that it was fetched for, and no others.
-- packages/warcraft-api/src/warcraft_api/client_credentials.py
use text.Mathlib.TextLemmas.{head-eq_of_cons-eq, tail-eq_of_cons-eq, cons-eq-cons}
use warcraft_cli.Base.{
  ℕ, ◌+◌, String, code, ◌≡◌, refl, ap, Bool, true, false, ◌||◌, Option, none, some, ◌==◌, eq_iff,
  leb, cat, has_char, arith, Bool-cases, inl, inr, if◌then◌else◌,
}
use warcraft_cli.Credentials.{
  ClientTokenCache, written, nul, credential_text, credential_key, is_blank, load, save,
  token_skew_seconds,
}
use warcraft_cli.Json.{Value, Fields, lookup}

cut :
    (s t u v : String)
    → has_char 0 s ≡ false
    → has_char 0 t ≡ false
    → cat s (cat nul u) ≡ cat t (cat nul v)
    → (s ≡ t) × (u ≡ v)
unfolding cat has_char
cut String.[] String.[] u v g h e = (refl, tail-eq_of_cons-eq e)
cut String.[] (String.◌∷◌ d t) u v g h e = absurd (ground (arith, ap code (head-eq_of_cons-eq e)))
cut (String.◌∷◌ c s) String.[] u v g h e = absurd (ground (arith, ap code (head-eq_of_cons-eq e)))
cut (String.◌∷◌ c s) (String.◌∷◌ d t) u v g h e =
    let (same, rest) = cut s t u v (ground arith) (ground arith) (tail-eq_of_cons-eq e) in
    (cons-eq-cons.1 (head-eq_of_cons-eq e, same), rest)

cut_nul : (u v : String) → cat nul u ≡ cat nul v → u ≡ v
unfolding cat
cut_nul u v e = tail-eq_of_cons-eq e

-- The same scope and the same credentials.
pub record IsSame (c d : ClientTokenCache) : Type 0 where
  pub scope : c.scope ≡ d.scope
  pub client_id : c.client_id ≡ d.client_id
  pub client_secret : c.client_secret ≡ d.client_secret

abbrev pub has_nul : ClientTokenCache → Bool
has_nul c = has_char 0 c.scope || has_char 0 c.client_id

module _ (digest : String → String) (seconds : Value → Option ℕ) where
  -- The texts that are hashed for the two do not collide.
  abbrev pub Apart : ClientTokenCache → ClientTokenCache → Type 0
  Apart c d =
      credential_key digest seconds c ≡ credential_key digest seconds d
      → credential_text digest seconds c ≡ credential_text digest seconds d

  same_key :
      (c d : ClientTokenCache)
      → IsSame c d
      → (credential_key digest seconds c == credential_key digest seconds d) ≡ true
  unfolding credential_text
  same_key c d same =
      (eq_iff (credential_key digest seconds c) (credential_key digest seconds d)).1
        (rw (same.scope, same.client_id, same.client_secret) refl)

  credential_key-IsSame :
      (c d : ClientTokenCache)
      → Apart c d
      → has_nul c ≡ false
      → has_nul d ≡ false
      → credential_key digest seconds c ≡ credential_key digest seconds d
      → IsSame c d
  unfolding credential_text
  credential_key-IsSame c d apart g h e =
      let (scope, rest) = cut c.scope d.scope _ _ (ground arith) (ground arith) (apart e) in
      let (client_id, secret) =
        cut c.client_id d.client_id _ _ (ground arith) (ground arith) rest in
      record { scope = scope; client_id = client_id; client_secret = secret }

  -- A token that was saved is loaded exactly for the scope and the credentials that it was saved for,
  -- while more than a minute is left of it, if it is not blank; and it is that token that is loaded. The
  -- scopes and client ids hold no NUL, and the digests of the two do not collide.
  pub load-save :
      (c d : ClientTokenCache) (token : String) (expires_at : Value) (e now : ℕ)
      (state : Option Fields)
      → Apart c d
      → has_nul c ≡ false
      → has_nul d ≡ false
      → seconds expires_at ≡ some e
      → (IsSame c d
          → load digest seconds d now (save digest seconds written c token expires_at state) ≡ (
              if is_blank token || leb e (now + token_skew_seconds) then none else some (token, e)))
        × ((loaded : String × ℕ)
            → load digest seconds d now (save digest seconds written c token expires_at state)
              ≡ some loaded
            → IsSame c d)
  unfolding load save lookup
  load-save c d token expires_at e now state apart g h k = (
    λ same. rw (same_key c d same, k) refl,
    λ loaded f.
        elim (Bool-cases (credential_key digest seconds c == credential_key digest seconds d)) [
          | inl same ↦
              credential_key-IsSame c d apart g h (
                (eq_iff (credential_key digest seconds c) (credential_key digest seconds d)).0 same)
          | inr other ↦ absurd (ground (arith, rw other at f))
        ],
  )
