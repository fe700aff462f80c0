-- ===== src/Server/Session/Seals.antt =====
-- About sealing and opening in src/server/session.rs.
use roder.Prelude.{
  take-append, take-length, inl, inr, ℕ, ◌+◌, ◌≤◌, ◌≡◌, ◌↔◌, refl, ◌∙◌, subst, false, none, some,
  List, [], ◌∷◌, ◌++◌, length, take, drop, ltb, if◌then◌else◌, unwrap_or, Option-cases, arith,
  length-append,
}
use roder.Server.Session.{
  SealedForwardedTokens, forwarded_payload, seal_forwarded_tokens, open_forwarded_tokens, Formats,
  Json, PendingLogin, SealedPending, Tokens, SealedSession, seal_bytes, open_bytes, seal_json,
  open_json, seal_session, open_session, seal_pending, open_pending, pending_payload,
  session_payload, pending_payload, session_payload,
}

-- Encryption with a nonce of 12 bytes and a tag of 16, which is decrypted if and only if it was made with
-- the key; and an encoding with one text for each sequence of bytes.
pub record IsSealing (X : Formats) : Type 0 where
  pub tag-le :
      (key : X.Key) (nonce plain ct : List ℕ) → X.encrypt key nonce plain ≡ some ct → 16 ≤ length ct
  pub decrypt-iff :
      (key : X.Key) (nonce plain ct : List ℕ)
      → length nonce ≡ 12
      → (X.decrypt key nonce ct ≡ some plain) ↔ (X.encrypt key nonce plain ≡ some ct)
  pub decode-iff : (s : X.Text) (raw : List ℕ) → (X.decode s ≡ some raw) ↔ (X.encode raw ≡ s)

-- The value is written, and what is written is read back as it.
pub record IsJson {A : Type 0} (J : Json A) (a : A) : Type 0 where
  pub written : List ℕ
  pub to_vec-some : J.to_vec a ≡ some written
  pub from_slice-some : J.from_slice written ≡ some a

take-front : (n : ℕ) (xs ys : List ℕ) → length xs ≡ n → take n (xs ++ ys) ≡ xs
take-front n xs ys h =
    subst (λ k. take k (xs ++ ys) ≡ xs) h
      (take-append (length xs) xs ys (omega arith) ∙ take-length xs)

drop-length : (xs ys : List ℕ) → drop (length xs) (xs ++ ys) ≡ ys
drop-length [] ys = refl
drop-length (x ∷ xs) ys = drop-length xs ys

drop-front : (n : ℕ) (xs ys : List ℕ) → length xs ≡ n → drop n (xs ++ ys) ≡ ys
drop-front n xs ys h = subst (λ k. drop k (xs ++ ys) ≡ ys) h (drop-length xs ys)

long_enough : (n : ℕ) → ltb n 28 ≡ false → 12 ≤ n
long_enough n e = ground (arith, e)

not_short : (n : ℕ) → 28 ≤ n → ltb n 28 ≡ false
not_short n h = ground (arith, h)

module _ (X : Formats) (L : IsSealing X) where
  open X use {Key, Text}

  opened-sealed :
      (key : Key) (nonce plain ct : List ℕ)
      → length nonce ≡ 12
      → X.encrypt key nonce plain ≡ some ct
      → open_bytes X (X.encode (nonce ++ ct)) key ≡ some plain
  unfolding open_bytes
  opened-sealed key nonce plain ct h e =
      let tag = L.tag-le key nonce plain ct e in
      let size = length-append nonce ct in
      let long = not_short (length (nonce ++ ct)) (omega arith) in
      rw
        (
          (L.decode-iff (X.encode (nonce ++ ct)) (nonce ++ ct)).1 refl,
          long,
          take-front 12 nonce ct h,
          drop-front 12 nonce ct h,
        )
        ((L.decrypt-iff key nonce plain ct h).1 e)

  -- What is sealed opens, unless sealing failed.
  pub open_bytes-seal_bytes :
      (plain nonce : List ℕ) (key : Key)
      → length nonce ≡ 12
      → (seal_bytes X plain key nonce ≡ X.empty_text → ⊥)
      → open_bytes X (seal_bytes X plain key nonce) key ≡ some plain
  unfolding seal_bytes
  open_bytes-seal_bytes plain nonce key h k = elim (Option-cases (X.encrypt key nonce plain)) [
    | inl e ↦ absurd (k (rw e refl))
    | inr (ct, e) ↦ rw e (opened-sealed key nonce plain ct h e)
  ]

  open_json-seal_json :
      {A : Type 0} (J : Json A) (a : A)
      → IsJson J a
      → (key : Key) (nonce : List ℕ) → length nonce ≡ 12
      → (seal_json X J a key nonce ≡ X.empty_text → ⊥)
      → open_json X J (seal_json X J a key nonce) key ≡ some a
  unfolding seal_json open_json
  open_json-seal_json J a I key nonce h k =
      rw (open_bytes-seal_bytes (unwrap_or (J.to_vec a) []) nonce key h k, I.to_vec-some)
        I.from_slice-some

  -- A login that was started can be finished with the cookie up to the second it lasts to, and not after,
  -- if its payload is read back from JSON as it was written and sealing the cookie did not fail.
  pub open_pending-seal_pending :
      (J : Json SealedPending) (pending : PendingLogin) (key : Key) (ttl_secs now later : ℕ)
      (nonce : List ℕ)
      → IsJson J (pending_payload pending ttl_secs now)
      → length nonce ≡ 12
      → (seal_pending X J pending key ttl_secs now nonce ≡ X.empty_text → ⊥)
      → open_pending X J (seal_pending X J pending key ttl_secs now nonce) key later
        ≡ (if ltb (now + ttl_secs) later then none else some pending)
  unfolding open_pending seal_pending
  open_pending-seal_pending J pending key ttl_secs now later nonce I h k =
      rw (open_json-seal_json J _ I key nonce h k) refl

  -- A session is opened with the identity and the refresh token it was sealed with, without the other
  -- tokens, and with the expiry that its time stamp gives, if its payload is read back from JSON as it was
  -- written, its time stamp is one, and sealing the cookie did not fail.
  pub open_session-seal_session :
      (J : Json (SealedSession X)) (tokens : Tokens X) (key : Key) (nonce : List ℕ)
      (expires_at : X.Time)
      → IsJson J (session_payload X tokens)
      → length nonce ≡ 12
      → (seal_session X J tokens key nonce ≡ X.empty_text → ⊥)
      → X.from_unix_timestamp (X.unix_timestamp tokens.expires_at) ≡ some expires_at
      → open_session X J (seal_session X J tokens key nonce) key
        ≡ some (record tokens { id_token = ""; access_token = ""; expires_at = expires_at })
  unfolding open_session seal_session
  open_session-seal_session J tokens key nonce expires_at I h k e =
      rw (open_json-seal_json J _ I key nonce h k, e) refl

  -- Between replicas all tokens are passed on, with the expiry in whole seconds.
  open_forwarded_tokens-seal_forwarded_tokens :
      (J : Json (SealedForwardedTokens X)) (tokens : Tokens X) (key : Key) (nonce : List ℕ)
      (expires_at : X.Time)
      → IsJson J (forwarded_payload X tokens)
      → length nonce ≡ 12
      → (seal_forwarded_tokens X J tokens key nonce ≡ X.empty_text → ⊥)
      → X.from_unix_timestamp (X.unix_timestamp tokens.expires_at) ≡ some expires_at
      → open_forwarded_tokens X J (seal_forwarded_tokens X J tokens key nonce) key
        ≡ some (record tokens { expires_at = expires_at })
  unfolding open_forwarded_tokens seal_forwarded_tokens
  open_forwarded_tokens-seal_forwarded_tokens J tokens key nonce expires_at I h k e =
      rw (open_json-seal_json J _ I key nonce h k, e) refl
