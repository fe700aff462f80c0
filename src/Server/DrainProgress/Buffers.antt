-- ===== src/Server/DrainProgress/Buffers.antt =====
-- Facts about numbered buffers.
use roder.Prelude.{
  ℕ, zero, suc, ◌+◌, ◌≡◌, refl, Option, none, some, List, [], ◌∷◌, ◌++◌, length, take, drop,
  get_elem?, arith,
}
use roder.Core.Drain.{DrainEvent}
use roder.Server.DrainJobs.Invariant.{Numbered}
use roder.Server.DrainJobs.Owners.{events_after}
use roder.Server.DrainProgress.{seq_of_last}

-- The number of the last of `n` events that are numbered from 0.
abbrev pub before : ℕ → Option ℕ
before zero = none
before (suc n) = some n

pub seq-middle :
    (n : ℕ) (xs ys : List DrainEvent) (e : DrainEvent)
    → Numbered n (xs ++ e ∷ ys)
    → e.seq ≡ n + length xs
seq-middle n [] ys e h = omega (arith, h.0)
seq-middle n (x ∷ xs) ys e h = omega (arith, seq-middle (suc n) xs ys e h.1)

pub seq-get_elem? :
    (n i : ℕ) (es : List DrainEvent) (e : DrainEvent)
    → Numbered n es
    → get_elem? es i ≡ some e
    → e.seq ≡ n + i
seq-get_elem? n i [] e h q = absurd (cc q)
seq-get_elem? n zero (x ∷ es) e h q = ground (arith, h.0)
seq-get_elem? n (suc i) (x ∷ es) e h q = omega (arith, seq-get_elem? (suc n) i es e h.1 q)

pub Numbered-take : (n k : ℕ) (es : List DrainEvent) → Numbered n es → Numbered n (take k es)
Numbered-take n zero es h = tt
Numbered-take n (suc k) [] h = tt
Numbered-take n (suc k) (e ∷ es) h = (h.0, Numbered-take (suc n) k es h.1)

pub events_after-before : (n : ℕ) (es : List DrainEvent) → events_after (before n) es ≡ drop n es
events_after-before zero es = refl
events_after-before (suc n) es = refl

last-Numbered :
    (n : ℕ) (e : DrainEvent) (es : List DrainEvent)
    → Numbered n (e ∷ es)
    → seq_of_last (e ∷ es) ≡ some (n + length es)
unfolding seq_of_last
last-Numbered n e [] h = ground (arith, h.0)
last-Numbered n e (d ∷ es) h = ground (arith, last-Numbered (suc n) d es h.1)

pub seq_of_last-Numbered :
    (es : List DrainEvent) → Numbered 0 es → seq_of_last es ≡ before (length es)
unfolding seq_of_last
seq_of_last-Numbered [] h = refl
seq_of_last-Numbered (e ∷ es) h = ground (arith, last-Numbered 0 e es h)
