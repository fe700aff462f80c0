-- ===== src/K8s/Errors.antt =====
-- The classification of API errors of crates/k8s/src/backend/mod.rs. An error of the kube client is
-- seen through its variant, the status code of an API error, and its text.
use roder.Prelude.{ℕ, String, ◌&&◌, ◌||◌, leb, if◌then◌else◌, nat_beq}

pub data KubeError : Type 0 where
  api : ℕ → String → KubeError
  hyper : String → KubeError
  service : String → KubeError
  other : String → KubeError

-- `error.to_string()`
abbrev pub text : KubeError → String
text (api code s) = s
text (hyper s) = s
text (service s) = s
text (other s) = s

pub data ApiErrorDisposition : Type 0 where
  not_found retryable permanent : ApiErrorDisposition

unfoldable pub classify_status : ℕ → ApiErrorDisposition
classify_status code =
    if nat_beq code 404
    then not_found
    else if nat_beq code 429 || (leb 500 code && leb code 599)
    then retryable
    else permanent

unfoldable pub classify_kube_error : KubeError → ApiErrorDisposition
unfolding classify_status
classify_kube_error (api code s) = classify_status code
classify_kube_error (hyper s) = retryable
classify_kube_error (service s) = retryable
classify_kube_error (other s) = permanent
