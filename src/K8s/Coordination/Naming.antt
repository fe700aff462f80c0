-- ===== src/K8s/Coordination/Naming.antt =====
-- `lease_name` of crates/k8s/src/coordination.rs. Texts are the codes of their characters; their bytes are
-- an argument, the standard library's encoding.
mod Tests
use Prim.Native.Nat.{bit_xor}
use roder.Prelude.{
  ℕ, zero, suc, ◌+◌, ◌*◌, ◌/◌, ◌%◌, ◌^◌, ◌≤◌, ◌<◌, ◌≡◌, refl, Bool, true, false, ◌&&◌, ◌||◌, inl,
  inr, List, [], ◌∷◌, ◌++◌, All, All-append, length, length-append, take, nat_beq, ltb, leb,
  if◌then◌else◌, Bool-cases, arith, ap, ◌∙◌,
}
use roder.Prelude.Texts.{codes}

-- FNV-1a, in 64 bits.
abbrev mixed : ℕ → ℕ → ℕ
mixed hash byte = (bit_xor hash byte * 1099511628211) % 2 ^ 64

unfoldable pub fnv : ℕ → List ℕ → ℕ
fnv hash [] = hash
fnv hash (b ∷ bs) = fnv (mixed hash b) bs

abbrev hex_digit : ℕ → ℕ
hex_digit d = if ltb d 10 then 48 + d else 87 + d

-- `{hash:016x}`: with 16 digits a number of 64 bits is whole.
unfoldable pub hex : ℕ → ℕ → List ℕ
hex zero n = []
hex (suc k) n = hex k (n / 16) ++ (hex_digit (n % 16) ∷ [])

abbrev is_upper : ℕ → Bool
is_upper c = leb 65 c && leb c 90

abbrev is_kept : ℕ → Bool
is_kept c = (leb 48 c && leb c 57) || (is_upper c || ((leb 97 c && leb c 122) || nat_beq c b'-'))

abbrev name_char : ℕ → ℕ
name_char c = if is_kept c then (if is_upper c then c + 32 else c) else b'-'

unfoldable pub name_chars : List ℕ → List ℕ
name_chars [] = []
name_chars (c ∷ cs) = name_char c ∷ name_chars cs

-- `trim_matches('-')`
unfoldable pub trim_start : List ℕ → List ℕ
trim_start [] = []
trim_start (c ∷ cs) = let rest = trim_start cs in if nat_beq c b'-' then rest else c ∷ cs

abbrev is_nil : List ℕ → Bool
is_nil [] = true
is_nil (c ∷ cs) = false

unfoldable pub trim_back : List ℕ → List ℕ
trim_back [] = []
trim_back (c ∷ cs) =
    let rest = trim_back cs in if is_nil rest && nat_beq c b'-' then [] else c ∷ rest

module _ (bytes : List ℕ → List ℕ) where
  abbrev suffix : List ℕ → List ℕ → List ℕ
  suffix scope target = hex 16 (fnv 14695981039346656037 (bytes scope ++ (0 ∷ bytes target)))

  unfoldable pub lease_name : List ℕ → List ℕ → List ℕ
  lease_name scope target =
      codes "roder-node-"
      ++ (trim_back (trim_start (take 220 (name_chars target))) ++ (b'-' ∷ suffix scope target))

-- A character that the name of a Kubernetes object may have.
abbrev pub is_name_char : ℕ → Bool
is_name_char c = (leb 48 c && leb c 57) || ((leb 97 c && leb c 122) || nat_beq c b'-')

abbrev pub IsName : List ℕ → Type 0
IsName = All (λ c. is_name_char c ≡ true)

-- A name of at most so many characters.
abbrev Short : ℕ → List ℕ → Type 0
Short n cs = IsName cs × (length cs ≤ n)

append-Short : (n m : ℕ) (a b : List ℕ) → Short n a → Short m b → Short (n + m) (a ++ b)
append-Short n m a b (p, h) (q, k) =
    let l = length-append a b in (All-append _ a b p q, omega arith)

hex_digit-is_name_char : (d : ℕ) → d < 16 → is_name_char (hex_digit d) ≡ true
hex_digit-is_name_char d h = ground (arith, h)

hex-Short : (k n : ℕ) → Short k (hex k n)
unfolding hex
hex-Short zero n = (tt, omega arith)
hex-Short (suc k) n =
    let (p, h) =
      append-Short k 1 (hex k (n / 16)) (hex_digit (n % 16) ∷ []) (hex-Short k (n / 16))
        ((hex_digit-is_name_char (n % 16) (omega arith), tt), omega arith) in
    (p, omega arith)

name_char-is_name_char : (c : ℕ) → is_name_char (name_char c) ≡ true
name_char-is_name_char c = ground arith

name_chars-IsName : (cs : List ℕ) → IsName (name_chars cs)
unfolding name_chars
name_chars-IsName [] = tt
name_chars-IsName (c ∷ cs) = (name_char-is_name_char c, name_chars-IsName cs)

take-Short : (n : ℕ) (cs : List ℕ) → IsName cs → Short n (take n cs)
take-Short zero cs h = (tt, omega arith)
take-Short (suc n) [] h = (tt, omega arith)
take-Short (suc n) (c ∷ cs) h = let (p, k) = take-Short n cs h.1 in ((h.0, p), omega arith)

trim_start-Short : (n : ℕ) (cs : List ℕ) → Short n cs → Short n (trim_start cs)
unfolding trim_start
trim_start-Short n [] h = h
trim_start-Short n (c ∷ cs) h = elim (Bool-cases (nat_beq c b'-')) [
  | inl e ↦ rw e (trim_start-Short n cs (h.0.1, (let k = h.1 in omega arith)))
  | inr e ↦ rw e h
]

trim_back-Short : (n : ℕ) (cs : List ℕ) → Short n cs → Short n (trim_back cs)
unfolding trim_back
trim_back-Short n [] h = h
trim_back-Short zero (c ∷ cs) h = absurd (let k = h.1 in omega arith)
trim_back-Short (suc n) (c ∷ cs) h =
    let (p, k) = trim_back-Short n cs (h.0.1, (let k = h.1 in omega arith)) in
    elim (Bool-cases (is_nil (trim_back cs) && nat_beq c b'-')) [
      | inl e ↦ rw e (tt, omega arith)
      | inr e ↦ rw e ((h.0.0, p), omega arith)
    ]

-- Whatever the scope and the target are, the name of the lease has the characters that Kubernetes allows in
-- a name alone, and 248 of them at most, which is less than the 253 that it allows.
pub lease_name-IsName :
    (bytes : List ℕ → List ℕ) (scope target : List ℕ)
    → IsName (lease_name bytes scope target) × (length (lease_name bytes scope target) ≤ 248)
unfolding lease_name
lease_name-IsName bytes scope target =
    let hash = fnv 14695981039346656037 (bytes scope ++ (0 ∷ bytes target)) in
    let tail =
      append-Short 1 16 (b'-' ∷ []) (hex 16 hash) ((refl, tt), omega arith) (hex-Short 16 hash) in
    let kept = name_chars target in
    let middle =
      trim_back-Short 220 (trim_start (take 220 kept))
        (trim_start-Short 220 (take 220 kept) (take-Short 220 kept (name_chars-IsName target))) in
    append-Short 11 237 (codes "roder-node-") _
      (
        (refl, (refl, (refl, (refl, (refl, (refl, (refl, (refl, (refl, (refl, (refl, tt))))))))))),
        omega arith,
      )
      (append-Short 220 17 (trim_back (trim_start (take 220 kept))) (b'-' ∷ hex 16 hash) middle
        tail)
