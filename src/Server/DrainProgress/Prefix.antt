-- ===== src/Server/DrainProgress/Prefix.antt =====
-- What a client has been sent, as a part of the job's buffer, through each round of the stream.
use mathlib.Core.List.{append-nil, append_assoc}
use mathlib.Core.Bool.{false≢true}
use roder.Prelude.{
  ℕ, zero, suc, ◌+◌, ◌≤◌, String, ◌≡◌, refl, sym, ap, ◌∙◌, subst, Bool, true, false, none, some,
  List, [], ◌∷◌, ◌++◌, length, take, drop, get_elem?, arith, nat_eq, string_eq, Bool-cases,
  Option-cases, inl, inr, take-append-drop, take-length, take-append, take-suc, length-take,
  get_elem?-lt, length-append,
}
use roder.Core.Drain.{DrainEvent}
use roder.Server.Broadcast.{Broadcast}
use roder.Server.Terminal.{is_terminal}
use roder.Server.DrainJobs.{DrainJobs, replay_after}
use roder.Server.DrainJobs.Invariant.{Numbered, Ongoing, IsSealed, unfinished, complete}
use roder.Server.DrainJobs.Owners.{events_after}
use roder.Server.DrainProgress.{
  value, lagged, shut, Live, yielded, again, over, covered, pop_pending, receive,
}
use roder.Server.DrainProgress.Buffers.{
  before, seq-middle, seq-get_elem?, Numbered-take, events_after-before,
}

-- `n` events of `log` have been sent (`out`) or wait in `pending`; the receiver is not beyond them.
pub record IsPrefix (n : ℕ) (log : List DrainEvent) (position : ℕ) (l : Live)
    (out : List DrainEvent) : Type 0 where
  pub numbered : Numbered 0 log
  pub taken : out ++ l.pending ≡ take n log
  pub bound : n ≤ length log
  pub reached : position ≤ n
  pub last : l.last_seq ≡ before (length out)

pub pop_pending_inv :
    (l l' : Live) (ev : DrainEvent)
    → pop_pending l ≡ some (yielded ev l')
    → (rest : List DrainEvent) × (l.pending ≡ ev ∷ rest)
      × (l'.pending ≡ rest)
      × (l'.last_seq ≡ some ev.seq)
      × (l'.stop ≡ is_terminal ev.kind)
unfolding pop_pending
pop_pending_inv l l' ev h = (l'.pending, ground arith, refl, ground arith, ground arith)

pub pop_pending-none : (l : Live) → pop_pending l ≡ none → l.pending ≡ []
unfolding pop_pending
pop_pending-none l h = ground arith

pub delivers-IsPrefix :
    (n : ℕ) (log : List DrainEvent) (position : ℕ) (l l' : Live) (out : List DrainEvent)
    (ev : DrainEvent)
    → pop_pending l ≡ some (yielded ev l')
    → IsPrefix n log position l out
    → IsPrefix n log position l' (out ++ ev ∷ [])
delivers-IsPrefix n log position l l' out ev h p =
    let (rest, l-pending, l'-pending, l'-last, _) = pop_pending_inv l l' ev h in
    let split : out ++ ev ∷ rest ≡ take n log = rw (← l-pending) p.taken in
    let seq : ev.seq ≡ 0 + length out =
      seq-middle 0 out rest ev
        (subst (Numbered 0) (sym split) (Numbered-take 0 n log p.numbered)) in
    record {
      numbered = p.numbered;
      taken = rw l'-pending (append_assoc out (ev ∷ []) rest ∙ split);
      bound = p.bound;
      reached = p.reached;
      last = ground (arith, length-append out (ev ∷ []), seq, l'-last);
    }

pub receive-value_inv :
    (B : Broadcast DrainEvent) (jobs : DrainJobs B.Sender) (owner : String) (id : ℕ) (l l' : Live)
    (ev ev' : DrainEvent)
    → receive B jobs owner id l (value ev) ≡ yielded ev' l'
    → (covered l.last_seq ev.seq ≡ false)
      × (ev ≡ ev')
      × (l'.pending ≡ l.pending)
      × (l'.last_seq ≡ some ev.seq)
      × (l'.stop ≡ is_terminal ev.kind)
unfolding receive
receive-value_inv B jobs owner id l l' ev ev' h = elim (Bool-cases (covered l.last_seq ev.seq)) [
  | inl c ↦ absurd (ground (arith, c))
  | inr c ↦ (c, ground (arith, c), ground (arith, c), ground (arith, c), ground (arith, c))
]

module _ (B : Broadcast DrainEvent) (jobs : DrainJobs B.Sender) (owner : String) (id : ℕ)
    (l l' : Live) where
  pub receive-value_again :
      (ev : DrainEvent)
      → receive B jobs owner id l (value ev) ≡ again l'
      → (covered l.last_seq ev.seq ≡ true) × (l' ≡ l)
  unfolding receive
  receive-value_again ev h = elim (Bool-cases (covered l.last_seq ev.seq)) [
    | inl c ↦ (c, ground (arith, c))
    | inr c ↦ absurd (ground (arith, c))
  ]

  pub receive-value_over : (ev : DrainEvent) → receive B jobs owner id l (value ev) ≡ over → ⊥
  unfolding receive
  receive-value_over ev h = elim (Bool-cases (covered l.last_seq ev.seq)) [
    | inl c ↦ ground (arith, c)
    | inr c ↦ ground (arith, c)
  ]

  pub receive-shut_yielded : (ev : DrainEvent) → receive B jobs owner id l shut ≡ yielded ev l' → ⊥
  unfolding receive
  receive-shut_yielded ev h = cc h

  pub receive-shut_again : receive B jobs owner id l shut ≡ again l' → ⊥
  unfolding receive
  receive-shut_again h = cc h

  pub receive-lagged_over :
      (n : ℕ)
      → receive B jobs owner id l (lagged n) ≡ over
      → replay_after B owner id l.last_seq jobs ≡ none
  unfolding receive
  receive-lagged_over n h = elim (Option-cases (replay_after B owner id l.last_seq jobs)) [
    | inl e ↦ e
    | inr (r, e) ↦ absurd (ground (arith, e))
  ]

  pub receive-lagged_yielded :
      (n : ℕ) (ev : DrainEvent) → receive B jobs owner id l (lagged n) ≡ yielded ev l' → ⊥
  unfolding receive
  receive-lagged_yielded n ev h = elim (Option-cases (replay_after B owner id l.last_seq jobs)) [
    | inl e ↦ ground (arith, e)
    | inr (r, e) ↦ ground (arith, e)
  ]

  pub receive-lagged_again :
      (n : ℕ)
      → receive B jobs owner id l (lagged n) ≡ again l'
      → (r : List DrainEvent) × (replay_after B owner id l.last_seq jobs ≡ some r)
        × (l' ≡ record l { pending = l.pending ++ r })
  unfolding receive
  receive-lagged_again n h = elim (Option-cases (replay_after B owner id l.last_seq jobs)) [
    | inl e ↦ absurd (ground (arith, e))
    | inr (r, e) ↦ (r, e, ground (arith, e))
  ]

-- With nothing pending, what has been sent is what has been taken.
pub idle :
    (n : ℕ) (log : List DrainEvent) (position : ℕ) (l : Live) (out : List DrainEvent)
    → l.pending ≡ []
    → IsPrefix n log position l out
    → (out ≡ take n log) × (length out ≡ n)
idle n log position l out e p =
    let whole : out ≡ take n log = sym (append-nil out) ∙ (rw (← e) p.taken) in
    (whole, ap length whole ∙ length-take n log p.bound)

new_value :
    (n position seq : ℕ)
    → covered (before n) seq ≡ false
    → seq ≡ position
    → position ≤ n
    → position ≡ n
new_value zero position seq c q h = omega arith
new_value (suc n) position seq c q h = ground arith

pub receives-IsPrefix :
    (n : ℕ) (log : List DrainEvent) (position : ℕ) (l l' : Live) (out : List DrainEvent)
    (ev : DrainEvent)
    → l.pending ≡ []
    → get_elem? log position ≡ some ev
    → covered l.last_seq ev.seq ≡ false
    → l'.pending ≡ l.pending
    → l'.last_seq ≡ some ev.seq
    → IsPrefix n log position l out
    → IsPrefix (suc n) log (suc position) l' (out ++ ev ∷ [])
receives-IsPrefix n log position l l' out ev e g c l'-pending l'-last p =
    let (whole, size) = idle n log position l out e p in
    let seq : ev.seq ≡ 0 + position = seq-get_elem? 0 position log ev p.numbered g in
    let at : position ≡ n =
      new_value n position ev.seq (ground (arith, c, p.last, size)) (omega arith) p.reached in
    let g' : get_elem? log n ≡ some ev = subst (λ k. get_elem? log k ≡ some ev) at g in
    record {
      numbered = p.numbered;
      taken = rw (l'-pending ∙ e) (
          append-nil (out ++ ev ∷ [])
          ∙ ap (λ es. es ++ ev ∷ []) whole
          ∙ sym (take-suc n log ev g'));
      bound = get_elem?-lt log n ev g';
      reached = omega arith;
      last = ground (arith, length-append out (ev ∷ []), seq, l'-last);
    }

-- The receiver was moved on, and the buffer after the last event sent was taken over.
pub lags-IsPrefix :
    (n : ℕ) (log : List DrainEvent) (position position' : ℕ) (l : Live) (out : List DrainEvent)
    → l.pending ≡ []
    → position' ≤ length log
    → IsPrefix n log position l out
    → IsPrefix
        (length log)
        log
        position'
        (record l { pending = l.pending ++ events_after l.last_seq log })
        out
lags-IsPrefix n log position position' l out e h p =
    let (whole, size) = idle n log position l out e p in
    let missed : events_after l.last_seq log ≡ drop n log =
      rw (p.last, size) (events_after-before n log) in
    record {
      numbered = p.numbered;
      taken = rw (e, missed, whole) (take-append-drop n log ∙ sym (take-length log));
      bound = omega arith;
      reached = h;
      last = p.last;
    }

-- A value that was recovered before is passed over.
pub passes-IsPrefix :
    (n : ℕ) (log : List DrainEvent) (position : ℕ) (l : Live) (out : List DrainEvent)
    (ev : DrainEvent)
    → l.pending ≡ []
    → get_elem? log position ≡ some ev
    → covered l.last_seq ev.seq ≡ true
    → IsPrefix n log position l out
    → IsPrefix n log (suc position) l out
passes-IsPrefix n log position l out ev e g c p =
    let (whole, size) = idle n log position l out e p in
    let seq : ev.seq ≡ 0 + position = seq-get_elem? 0 position log ev p.numbered g in
    record {
      numbered = p.numbered;
      taken = p.taken;
      bound = p.bound;
      reached = old_value n position ev.seq (ground (arith, c, p.last, size)) (omega arith);
      last = p.last;
    }
  where
    old_value : (m k seq : ℕ) → covered (before m) seq ≡ true → seq ≡ k → suc k ≤ m
    old_value zero k seq c q = absurd (ground arith)
    old_value (suc m) k seq c q = ground arith

pub grows-IsPrefix :
    (n : ℕ) (log added : List DrainEvent) (position : ℕ) (l : Live) (out : List DrainEvent)
    → Numbered 0 (log ++ added)
    → IsPrefix n log position l out
    → IsPrefix n (log ++ added) position l out
grows-IsPrefix n log added position l out h p = record {
  numbered = h;
  taken = p.taken ∙ sym (take-append n log added p.bound);
  bound = omega (arith, length-append log added, p.bound);
  reached = p.reached;
  last = p.last;
}

-- A terminal event ends the buffer.
terminal_cut :
    (xs ys init : List DrainEvent) (ev last : DrainEvent)
    → xs ++ ev ∷ ys ≡ init ++ last ∷ []
    → Ongoing init
    → is_terminal ev.kind ≡ true
    → ys ≡ []
terminal_cut [] ys [] ev last e o t = ground arith
terminal_cut [] ys (i ∷ init) ev last e o t = absurd (ground (arith, o.0))
terminal_cut (x ∷ xs) ys [] ev last e o t =
    absurd (omega (arith, ap length e, length-append xs (ev ∷ ys)))
terminal_cut (x ∷ xs) ys (i ∷ init) ev last e o t =
    terminal_cut xs ys init ev last (ground arith) o.1 t

All-middle :
    (xs ys : List DrainEvent) (ev : DrainEvent)
    → Ongoing (xs ++ ev ∷ ys)
    → is_terminal ev.kind ≡ false
All-middle [] ys ev h = h.0
All-middle (x ∷ xs) ys ev h = All-middle xs ys ev h.1

pub complete-take :
    (d : Bool) (k : ℕ) (log xs : List DrainEvent) (ev : DrainEvent)
    → IsSealed d log
    → take k log ≡ xs ++ ev ∷ []
    → is_terminal ev.kind ≡ true
    → take k log ≡ log
complete-take d k log xs ev sealed e t =
    let split : xs ++ ev ∷ drop k log ≡ log =
      sym (append_assoc xs (ev ∷ []) (drop k log))
      ∙ ap (λ es. es ++ drop k log) (sym e)
      ∙ take-append-drop k log in
    let rest : drop k log ≡ [] = go sealed split in e ∙ ap (λ ys. xs ++ ev ∷ ys) (sym rest) ∙ split
  where
    go : IsSealed d log → xs ++ ev ∷ drop k log ≡ log → drop k log ≡ []
    go (unfinished _ o) split =
        absurd (false≢true (sym (All-middle xs (drop k log) ev (rw split o)) ∙ t))
    go (complete init last _ o _ q) split =
        terminal_cut xs (drop k log) init ev last (split ∙ q) o t
