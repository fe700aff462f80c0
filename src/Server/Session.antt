-- ===== src/Server/Session.antt =====
-- src/server/session.rs: what is sealed into the cookies and into the header between replicas. Bytes are
-- numbers, a time is in seconds, and the random nonce and the current time are arguments. The text of a
-- cookie or a header is opaque.
pub mod Seals
mod Tests
use roder.Prelude.{
  ℕ, ◌+◌, String, Bool, Option, none, some, List, [], ◌++◌, length, take, drop, ltb, if◌then◌else◌,
  unwrap_or,
}

-- AES-256-GCM, URL-safe base64 without padding, JSON, and the data that is only passed on.
pub record Formats : Type 1 where
  pub Key : Type 0
  pub Identity : Type 0
  pub Time : Type 0
  pub encrypt : Key → List ℕ → List ℕ → Option (List ℕ)
  pub decrypt : Key → List ℕ → List ℕ → Option (List ℕ)
  pub Text : Type 0
  pub empty_text : Text
  pub encode : List ℕ → Text
  pub decode : Text → Option (List ℕ)
  pub unix_timestamp : Time → ℕ
  pub from_unix_timestamp : ℕ → Option Time

-- `serde_json` for a type.
pub record Json (A : Type 0) : Type 0 where
  pub to_vec : A → Option (List ℕ)
  pub from_slice : List ℕ → Option A

pub record PendingLogin : Type 0 where
  pub csrf_state : String
  pub nonce : String
  pub pkce_verifier : String

pub record SealedPending : Type 0 where
  pub csrf_state : String
  pub nonce : String
  pub pkce_verifier : String
  pub expires_at_unix : ℕ

abbrev pub pending_payload : PendingLogin → ℕ → ℕ → SealedPending
pending_payload pending ttl_secs now = record {
  csrf_state = pending.csrf_state;
  nonce = pending.nonce;
  pkce_verifier = pending.pkce_verifier;
  expires_at_unix = now + ttl_secs;
}

abbrev pub bind : {A B : Type 0} → Option A → (A → Option B) → Option B
bind none f = none
bind (some a) f = f a

module _ (X : Formats) where
  open X use {Key, Identity, Time, Text}

  pub record Tokens : Type 0 where
    pub id_token : String
    pub access_token : String
    pub refresh_token : Option String
    pub expires_at : Time
    pub identity : Identity

  pub record SealedSession : Type 0 where
    pub refresh_token : Option String
    pub identity : Identity
    pub expires_at_unix : ℕ

  pub record SealedForwardedTokens : Type 0 where
    pub id_token : String
    pub access_token : String
    pub refresh_token : Option String
    pub identity : Identity
    pub expires_at_unix : ℕ

  abbrev sealed : List ℕ → Option (List ℕ) → Text
  sealed nonce none = X.empty_text
  sealed nonce (some ct) = X.encode (nonce ++ ct)

  unfoldable pub seal_bytes : List ℕ → Key → List ℕ → Text
  seal_bytes plain key nonce = sealed nonce (X.encrypt key nonce plain)

  abbrev opened : Key → List ℕ → Option (List ℕ)
  opened key raw = if ltb (length raw) 28 then none else X.decrypt key (take 12 raw) (drop 12 raw)

  unfoldable pub open_bytes : Text → Key → Option (List ℕ)
  open_bytes cookie key = bind (X.decode cookie) (opened key)

  -- `serde_json::to_vec(..).unwrap_or_default()`, sealed.
  unfoldable pub seal_json : {A : Type 0} → Json A → A → Key → List ℕ → Text
  seal_json J payload key nonce = seal_bytes (unwrap_or (J.to_vec payload) []) key nonce

  unfoldable pub open_json : {A : Type 0} → Json A → Text → Key → Option A
  open_json J cookie key = bind (open_bytes cookie key) J.from_slice

  abbrev pub session_payload : Tokens → SealedSession
  session_payload tokens = record {
    refresh_token = tokens.refresh_token;
    identity = tokens.identity;
    expires_at_unix = X.unix_timestamp tokens.expires_at;
  }

  unfoldable pub seal_session : Json SealedSession → Tokens → Key → List ℕ → Text
  seal_session J tokens key nonce = seal_json J (session_payload tokens) key nonce

  abbrev session_tokens : SealedSession → Option Tokens
  session_tokens s = bind (X.from_unix_timestamp s.expires_at_unix) (λ t. some (record {
    id_token = "";
    access_token = "";
    refresh_token = s.refresh_token;
    expires_at = t;
    identity = s.identity;
  }))

  unfoldable pub open_session : Json SealedSession → Text → Key → Option Tokens
  open_session J cookie key = bind (open_json J cookie key) session_tokens

  abbrev pub forwarded_payload : Tokens → SealedForwardedTokens
  forwarded_payload tokens = record {
    id_token = tokens.id_token;
    access_token = tokens.access_token;
    refresh_token = tokens.refresh_token;
    identity = tokens.identity;
    expires_at_unix = X.unix_timestamp tokens.expires_at;
  }

  unfoldable pub seal_forwarded_tokens : Json SealedForwardedTokens → Tokens → Key → List ℕ → Text
  seal_forwarded_tokens J tokens key nonce = seal_json J (forwarded_payload tokens) key nonce

  abbrev forwarded_tokens : SealedForwardedTokens → Option Tokens
  forwarded_tokens s = bind (X.from_unix_timestamp s.expires_at_unix) (λ t. some (record {
    id_token = s.id_token;
    access_token = s.access_token;
    refresh_token = s.refresh_token;
    expires_at = t;
    identity = s.identity;
  }))

  unfoldable pub open_forwarded_tokens : Json SealedForwardedTokens → Text → Key → Option Tokens
  open_forwarded_tokens J value key = bind (open_json J value key) forwarded_tokens

  unfoldable pub seal_pending : Json SealedPending → PendingLogin → Key → ℕ → ℕ → List ℕ → Text
  seal_pending J pending key ttl_secs now nonce =
      seal_json J (pending_payload pending ttl_secs now) key nonce

  abbrev pending_login : ℕ → SealedPending → Option PendingLogin
  pending_login now s =
      if ltb s.expires_at_unix now
      then none
      else some
          (record { csrf_state = s.csrf_state; nonce = s.nonce; pkce_verifier = s.pkce_verifier })

  unfoldable pub open_pending : Json SealedPending → Text → Key → ℕ → Option PendingLogin
  open_pending J cookie key now = bind (open_json J cookie key) (pending_login now)
