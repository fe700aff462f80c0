-- ===== src/Server/Session/Tests.antt =====
-- A cipher that only puts a tag with the key before the text, and a format with one field.
use roder.Prelude.{
  inl, inr, ℕ, ◌≡◌, refl, sym, ap, ◌∙◌, String, Option, none, some, List, [], ◌∷◌, ◌++◌, length,
  if◌then◌else◌, arith, nat_beq, nat_beq_iff, Bool-cases, length-append,
}
use roder.Server.Session.{
  Formats, Json, PendingLogin, SealedPending, SealedSession, Tokens, seal_bytes, seal_pending,
  open_pending, seal_session, open_session, seal_json, pending_payload, session_payload,
}
use roder.Server.Session.Seals.{
  IsSealing, IsJson, open_pending-seal_pending, open_session-seal_session,
}

abbrev tag : ℕ → List ℕ
tag key = key ∷ 0 ∷ 0 ∷ 0 ∷ 0 ∷ 0 ∷ 0 ∷ 0 ∷ 0 ∷ 0 ∷ 0 ∷ 0 ∷ 0 ∷ 0 ∷ 0 ∷ 0 ∷ []

unfoldable without : List ℕ → List ℕ → Option (List ℕ)
without [] ys = some ys
without (x ∷ xs) [] = none
without (x ∷ xs) (y ∷ ys) = let rest = without xs ys in if nat_beq x y then rest else none

some-inj : {x y : List ℕ} → ◌≡◌ {A = Option (List ℕ)} (some x) (some y) → x ≡ y
some-inj {x} e = ap (λ o. elim o [ none ↦ x | some z ↦ z ]) e

cons-inj : {x y : ℕ} {xs ys : List ℕ} → (x ∷ xs) ≡ (y ∷ ys) → (x ≡ y) × (xs ≡ ys)
cons-inj {x} {y} {xs} {ys} e =
    (ap (λ l. elim l [ [] ↦ x | z ∷ zs ↦ z ]) e, ap (λ l. elim l [ [] ↦ xs | z ∷ zs ↦ zs ]) e)

without-some : (xs ys zs : List ℕ) → without xs ys ≡ some zs → (xs ++ zs) ≡ ys
unfolding without
without-some [] ys zs e = sym (some-inj e)
without-some (x ∷ xs) [] zs e = absurd (cc e)
without-some (x ∷ xs) (y ∷ ys) zs e = elim (Bool-cases (nat_beq x y)) [
  | inl q ↦
      let same = (nat_beq_iff x y).0 q in
      let rest = without-some xs ys zs (rw q at e) in rw (same, rest) refl
  | inr q ↦ absurd (cc (rw q at e))
]

without-append : (xs zs : List ℕ) → without xs (xs ++ zs) ≡ some zs
unfolding without
without-append [] zs = refl
without-append (x ∷ xs) zs = rw ((nat_beq_iff x x).1 refl) (without-append xs zs)

abbrev plain_formats : Formats
plain_formats = record {
  Key = ℕ;
  Identity = String;
  Time = ℕ;
  encrypt = λ key nonce plain. some (tag key ++ plain);
  decrypt = λ key nonce ct. without (tag key) ct;
  Text = List ℕ;
  empty_text = [];
  encode = λ raw. raw;
  decode = λ text. some text;
  unix_timestamp = λ t. t;
  from_unix_timestamp = λ n. some n;
}

plain_formats-IsSealing : IsSealing plain_formats
plain_formats-IsSealing = record {
  tag-le = λ key nonce plain ct.
      λ e. let q = ap length (some-inj e) in let r = length-append (tag key) plain in omega arith;
  decrypt-iff = λ key nonce plain ct. λ h. (
    (λ e. ap some (without-some (tag key) ct plain e)),
    (λ e. ap (without (tag key)) (sym (some-inj e)) ∙ without-append (tag key) plain),
  );
  decode-iff = λ s raw. ((λ e. sym (some-inj e)), (λ e. ap some (sym e)));
}

abbrev twelve : List ℕ
twelve = 0 ∷ 1 ∷ 2 ∷ 3 ∷ 4 ∷ 5 ∷ 6 ∷ 7 ∷ 8 ∷ 9 ∷ 10 ∷ 11 ∷ []

-- The sample data are told apart by their expiry alone.
abbrev login : PendingLogin
login = record { csrf_state = "c"; nonce = "n"; pkce_verifier = "v" }

abbrev login_json : Json SealedPending
login_json = record {
  to_vec = λ a. some (1 ∷ []);
  from_slice = λ b. some (pending_payload login 600 1000);
}

abbrev login_IsJson : IsJson login_json (pending_payload login 600 1000)
login_IsJson = record { written = 1 ∷ []; to_vec-some = refl; from_slice-some = refl }

abbrev someone : Tokens plain_formats
someone = record {
  id_token = "i";
  access_token = "a";
  refresh_token = some "r";
  expires_at = 1600;
  identity = "ann";
}

abbrev session_json : Json (SealedSession plain_formats)
session_json = record {
  to_vec = λ a. some (2 ∷ []);
  from_slice = λ b. some (session_payload plain_formats someone);
}

open_pending-seal_pending_example :
    open_pending plain_formats login_json
      (seal_pending plain_formats login_json login 5 600 1000 twelve)
      5
      1601
    ≡ none
unfolding seal_pending seal_json seal_bytes
open_pending-seal_pending_example =
    open_pending-seal_pending plain_formats plain_formats-IsSealing login_json login 5 600 1000 1601
      twelve login_IsJson refl (λ e. cc e)

open_session-seal_session_example :
    open_session plain_formats session_json
      (seal_session plain_formats session_json someone 5 twelve)
      5
    ≡ some (record someone { id_token = ""; access_token = "" })
unfolding seal_session seal_json seal_bytes
open_session-seal_session_example =
    open_session-seal_session plain_formats plain_formats-IsSealing session_json someone 5 twelve
      1600 (record { written = 2 ∷ []; to_vec-some = refl; from_slice-some = refl }) refl
      (λ e. cc e) refl
