-- ===== src/Server/DrainProgress/Lossless.antt =====
-- What a subscriber has been sent of a job's events, when the stream goes on and when it ends.
use mathlib.Core.Bool.{false≢true}
use mathlib.Core.List.{append-nil}
use mathlib.Core.Path.{subst₂}
use roder.Prelude.{
  ℕ, suc, ◌≤◌, ◌<◌, String, ◌⊎◌, ◌≡◌, refl, sym, ap, ◌∙◌, subst, Bool, true, false, Option, none,
  some, List, [], ◌∷◌, ◌++◌, length, take, arith, nat_eq, string_eq, Option-cases, inl, inr,
  take-length, take-append, take-take, length-take, length-append,
}
use roder.Prelude.Maps.{find}
use roder.Core.Drain.{DrainEvent}
use roder.Server.Broadcast.{Broadcast}
use roder.Server.Terminal.{is_terminal}
use roder.Server.DrainJobs.{Entry, DrainJobs, new, subscribe, replay_after}
use roder.Server.DrainJobs.Steps.{Step, Reach}
use roder.Server.DrainJobs.Steps
use roder.Server.DrainJobs.Changes.{Step-Change}
use roder.Server.DrainJobs.Ids.{Change-absent, Change-next_id}
use roder.Server.DrainJobs.Invariant.{Reach-Inv, Numbered, IsSealed, unfinished, complete}
use roder.Server.DrainJobs.History.{Step-Continues}
use roder.Server.DrainJobs.Owners.{events_after, subscribe_inv, replay-subscribe}
use roder.Server.DrainProgress.{Received, Live, yielded, again, over, pop_pending, receive, start}
use roder.Server.DrainProgress.Session.{
  Session, Receives, next_value, behind, Streams, moves, delivers, receives, retries, stops, ends,
  closed, Runs, here, next, open_session, log_after,
}
use roder.Server.DrainProgress.Buffers.{seq_of_last-Numbered}
use roder.Server.DrainProgress.Prefix.{
  IsPrefix, delivers-IsPrefix, receives-IsPrefix, lags-IsPrefix, passes-IsPrefix, grows-IsPrefix,
  complete-take, pop_pending_inv, pop_pending-none, receive-value_inv, receive-value_again,
  receive-lagged_again, receive-lagged_yielded, receive-value_over, receive-lagged_over,
  receive-shut_yielded, receive-shut_again,
}

abbrev EndsTerminal : List DrainEvent → Type 0
EndsTerminal es =
    (xs : List DrainEvent) × (ev : DrainEvent) × (es ≡ xs ++ ev ∷ []) × (is_terminal ev.kind ≡ true)

module _ (B : Broadcast DrainEvent) (executor : Option String) (owner : String) (id : ℕ) where
  -- The stream of a job, followed from its start: `count` events are sent or pending.
  record Tracks (s : Session B) : Type 0 where
    reach : Reach B (new B executor) s.jobs
    old : id < s.jobs.next_id
    mine :
        (e : Entry B.Sender)
        → find id s.jobs.entries ≡ some e
        → (e.owner ≡ owner) × (e.events ≡ s.log)
    sealed_as : Bool
    is_sealed : IsSealed sealed_as s.log
    count : ℕ
    is_prefix : IsPrefix count s.log (B.position s.rx) s.live s.out
    stopped : s.live.stop ≡ true → EndsTerminal s.out
    ended : s.eof ≡ true → EndsTerminal s.out ⊎ (find id s.jobs.entries ≡ none)

  -- The registry moves on, and the buffer grows by `added`.
  regrown :
      (s : Session B) (jobs : DrainJobs B.Sender) (log added : List DrainEvent) (d : Bool)
      → Tracks s
      → Step B s.jobs jobs
      → log ≡ s.log ++ added
      → Numbered 0 log
      → IsSealed d log
      → ((e : Entry B.Sender)
          → find id jobs.entries ≡ some e
          → (e.owner ≡ owner) × (e.events ≡ log))
      → Tracks (record s { jobs = jobs; log = log })
  regrown s jobs log added d w st q n h m = record {
    reach = Steps.next w.reach st;
    old = omega (arith, w.old, Change-next_id B s.jobs jobs (Step-Change B st));
    mine = m;
    sealed_as = d;
    is_sealed = h;
    count = w.count;
    is_prefix =
        subst (λ es. IsPrefix w.count es (B.position s.rx) s.live s.out) (sym q)
          (grows-IsPrefix w.count s.log added _ _ _ (subst (Numbered 0) q n) w.is_prefix);
    stopped = w.stopped;
    ended = λ q. elim (w.ended q) [
      | inl all ↦ inl all
      | inr gone ↦ inr (Change-absent B s.jobs jobs id (Step-Change B st) w.old gone)
    ];
  }

  -- The job is not registered any more.
  unregistered :
      (s : Session B) (jobs : DrainJobs B.Sender)
      → Tracks s
      → Step B s.jobs jobs
      → find id jobs.entries ≡ none
      → Tracks (record s { jobs = jobs; log = log_after B s.log (find id jobs.entries) })
  unregistered s jobs w st absent = rw absent (
      regrown s jobs s.log [] w.sealed_as w st (sym (append-nil s.log)) w.is_prefix.numbered
        w.is_sealed (λ e f. absurd (not_found e f)))
    where
      not_found : (e : Entry B.Sender) → find id jobs.entries ≡ some e → ⊥
      not_found e f = ground (arith, absent, f)

  moves-Tracks :
      (s : Session B) (jobs : DrainJobs B.Sender)
      → Tracks s
      → Step B s.jobs jobs
      → Tracks (record s { jobs = jobs; log = log_after B s.log (find id jobs.entries) })
  moves-Tracks s jobs w st = elim (Option-cases (find id s.jobs.entries)) [
    | inl gone ↦
        unregistered s jobs w st (Change-absent B s.jobs jobs id (Step-Change B st) w.old gone)
    | inr (x, found) ↦ elim (Step-Continues B executor s.jobs jobs id x w.reach st found) [
      | inl (y, at, c) ↦
          let v = (Reach-Inv B executor jobs (Steps.next w.reach st)).sound id y at in
          let (own, buffer) = w.mine x found in
          rw at (
            regrown s jobs y.events c.added y.done w st (c.events ∙ ap (λ es. es ++ c.added) buffer)
              v.numbered v.is_sealed (λ e f. ground (arith, at, f, c.owner, own)))
      | inr (absent, _) ↦ unregistered s jobs w st absent
    ]
  ]

  -- The client's side moves on.
  advanced :
      (s : Session B) (n : ℕ) (rx : B.Receiver) (l : Live) (out : List DrainEvent)
      → Tracks s
      → s.eof ≡ false
      → IsPrefix n s.log (B.position rx) l out
      → (l.stop ≡ true → EndsTerminal out)
      → Tracks (record s { rx = rx; live = l; out = out })
  advanced s n rx l out w o p h = record {
    reach = w.reach;
    old = w.old;
    mine = w.mine;
    sealed_as = w.sealed_as;
    is_sealed = w.is_sealed;
    count = n;
    is_prefix = p;
    stopped = h;
    ended = λ q. absurd (false≢true (sym o ∙ q));
  }

  Receives-Tracks :
      (s : Session B) (rx : B.Receiver) (r : Received) (ev : DrainEvent) (l : Live)
      → Tracks s
      → s.eof ≡ false
      → pop_pending s.live ≡ none
      → Receives B (find id s.jobs.entries) s.log s.rx rx r
      → receive B s.jobs owner id s.live r ≡ yielded ev l
      → Tracks (record s { rx = rx; live = l; out = s.out ++ ev ∷ [] })
  Receives-Tracks s rx r ev l w o e (next_value ev' q g m) h =
      let (c, same_ev, pending, last, stop) =
        receive-value_inv B s.jobs owner id s.live l ev' ev (rw (← q) h) in
      let idle_now = pop_pending-none s.live e in
      rw (← same_ev) (
        advanced s (suc w.count) rx l (s.out ++ ev' ∷ []) w o
          (subst (λ k. IsPrefix (suc w.count) s.log k l (s.out ++ ev' ∷ [])) (sym m)
            (receives-IsPrefix w.count s.log _ s.live l s.out ev' idle_now g c pending last
              w.is_prefix))
          (λ stopped. (s.out, ev', refl, sym stop ∙ stopped)))
  Receives-Tracks s rx r ev l w o e (behind n q m b) h =
      absurd (receive-lagged_yielded B s.jobs owner id s.live l n ev (rw (← q) h))
  Receives-Tracks s rx r ev l w o e (closed q g m k) h =
      absurd (receive-shut_yielded B s.jobs owner id s.live l ev (rw (← q) h))

  -- What a lagging stream recovers.
  replay_log :
      (s : Session B) (recovered : List DrainEvent)
      → Tracks s
      → replay_after B owner id s.live.last_seq s.jobs ≡ some recovered
      → recovered ≡ events_after s.live.last_seq s.log
  unfolding replay_after
  replay_log s recovered w h = elim (Option-cases (find id s.jobs.entries)) [
    | inl gone ↦ absurd (ground (arith, gone))
    | inr (e, found) ↦
        let (own, buffer) = w.mine e found in
        let exact =
          (replay-subscribe B id s.jobs e (Reach-Inv B executor s.jobs w.reach) found).2
            s.live.last_seq in
        cc (h, exact, own, buffer)
  ]

  retries-Tracks :
      (s : Session B) (rx : B.Receiver) (r : Received) (l : Live)
      → Tracks s
      → s.eof ≡ false
      → s.live.stop ≡ false
      → pop_pending s.live ≡ none
      → Receives B (find id s.jobs.entries) s.log s.rx rx r
      → receive B s.jobs owner id s.live r ≡ again l
      → Tracks (record s { rx = rx; live = l })
  retries-Tracks s rx r l w o k e (next_value ev q g m) h =
      let (c, l-same) = receive-value_again B s.jobs owner id s.live l ev (rw (← q) h) in
      rw l-same (
        advanced s w.count rx s.live s.out w o
          (subst (λ k. IsPrefix w.count s.log k s.live s.out) (sym m)
            (passes-IsPrefix w.count s.log _ s.live s.out ev (pop_pending-none s.live e) g c
              w.is_prefix))
          w.stopped)
  retries-Tracks s rx r l w o k e (behind n q m b) h =
      let (recovered, replayed, l-eq) =
        receive-lagged_again B s.jobs owner id s.live l n (rw (← q) h) in
      let missed : recovered ≡ events_after s.live.last_seq s.log =
        replay_log s recovered w replayed in
      rw l-eq (
        advanced s (length s.log) rx _ s.out w o
          (rw missed (
            lags-IsPrefix w.count s.log _ (B.position rx) s.live s.out (pop_pending-none s.live e) b
              w.is_prefix))
          (λ stopped. absurd (false≢true (sym k ∙ stopped))))
  retries-Tracks s rx r l w o k e (closed q g m same) h =
      absurd (receive-shut_again B s.jobs owner id s.live l (rw (← q) h))

  -- A stream ends before the terminal event only if the job is gone.
  ends-absent :
      (s : Session B) (rx : B.Receiver) (r : Received)
      → Tracks s
      → Receives B (find id s.jobs.entries) s.log s.rx rx r
      → receive B s.jobs owner id s.live r ≡ over
      → find id s.jobs.entries ≡ none
  ends-absent s rx r w (next_value ev q g m) h =
      absurd (receive-value_over B s.jobs owner id s.live s.live ev (rw (← q) h))
  ends-absent s rx r w (closed q g m k) h = g
  ends-absent s rx r w (behind n q m b) h = elim (Option-cases (find id s.jobs.entries)) [
    | inl gone ↦ gone
    | inr (e, found) ↦
        let (own, buffer) = w.mine e found in
        let none_left = receive-lagged_over B s.jobs owner id s.live s.live n (rw (← q) h) in
        let exact =
          (replay-subscribe B id s.jobs e (Reach-Inv B executor s.jobs w.reach) found).2
            s.live.last_seq in
        absurd (cc (none_left, exact, own))
  ]

  ended-Tracks :
      (s : Session B)
      → Tracks s
      → EndsTerminal s.out ⊎ (find id s.jobs.entries ≡ none)
      → Tracks (record s { eof = true })
  ended-Tracks s w h = record {
    reach = w.reach;
    old = w.old;
    mine = w.mine;
    sealed_as = w.sealed_as;
    is_sealed = w.is_sealed;
    count = w.count;
    is_prefix = w.is_prefix;
    stopped = w.stopped;
    ended = λ _. h;
  }

  Streams-Tracks : (s t : Session B) → Streams B owner id s t → Tracks s → Tracks t
  Streams-Tracks s t (moves jobs st e) w = subst Tracks (sym e) (moves-Tracks s jobs w st)
  Streams-Tracks s t (delivers ev l o k h e) w =
      let (rest, _, _, _, stop) = pop_pending_inv s.live l ev h in
      subst Tracks (sym e) (
        advanced s w.count s.rx l (s.out ++ ev ∷ []) w o
          (delivers-IsPrefix w.count s.log _ s.live l s.out ev h w.is_prefix)
          (λ stopped. (s.out, ev, refl, sym stop ∙ stopped)))
  Streams-Tracks s t (receives r rx ev l o k h a q e) w =
      subst Tracks (sym e) (Receives-Tracks s rx r ev l w o h a q)
  Streams-Tracks s t (retries r rx l o k h a q e) w =
      subst Tracks (sym e) (retries-Tracks s rx r l w o k h a q)
  Streams-Tracks s t (stops o k e) w = subst Tracks (sym e) (ended-Tracks s w (inl (w.stopped k)))
  Streams-Tracks s t (ends r rx o k h a q e) w =
      subst Tracks (sym e) (ended-Tracks s w (inr (ends-absent s rx r w a q)))

  Runs-Tracks : (s t : Session B) → Runs B owner id s t → Tracks s → Tracks t
  Runs-Tracks s t here w = w
  Runs-Tracks s t (next {t = m} r st) w = Streams-Tracks m t st (Runs-Tracks s m r w)

  open_session-Tracks :
      (jobs : DrainJobs B.Sender) (e : Entry B.Sender)
      → Reach B (new B executor) jobs
      → find id jobs.entries ≡ some e
      → e.owner ≡ owner
      → Tracks (open_session B jobs e.events (B.subscribe e.tx) e.done)
  unfolding start
  open_session-Tracks jobs e r found own =
      let v = Reach-Inv B executor jobs r in
      let x = v.sound id e found in
      record {
        reach = r;
        old = x.fresh;
        mine = λ d at. (ground (arith, found, at, own), ground (arith, found, at));
        sealed_as = e.done;
        is_sealed = x.is_sealed;
        count = length e.events;
        is_prefix = record {
          numbered = x.numbered;
          taken = append-nil e.events ∙ sym (take-length e.events);
          bound = omega arith;
          reached = omega (arith, B.position-subscribe e.tx, ap length x.broadcast);
          last = seq_of_last-Numbered e.events x.numbered;
        };
        stopped = λ q. absurd (false≢true q);
        ended = λ q. inl (sealed_end e.done e.events q x.is_sealed);
      }
    where
      sealed_end : (d : Bool) (es : List DrainEvent) → d ≡ true → IsSealed d es → EndsTerminal es
      sealed_end d es q (unfinished u _) = absurd (false≢true (sym u ∙ q))
      sealed_end d es q (complete init last _ _ t split) = (init, last, split, t)

  sent_prefix :
      (n : ℕ) (log out pending : List DrainEvent)
      → out ++ pending ≡ take n log
      → n ≤ length log
      → out ≡ take (length out) log
  sent_prefix n log out pending h b =
      let short : length out ≤ n =
        omega (arith, ap length h, length-append out pending, length-take n log b) in
      sym (take-length out)
      ∙ sym (take-append (length out) out pending (omega arith))
      ∙ ap (take (length out)) h
      ∙ take-take (length out) n log short

  -- A client subscribes to a job of his in a reachable registry, and then the registry, the channel and the
  -- stream take steps in any order. What he has been sent, before `eof`, is a prefix of all that the job has
  -- emitted; it is all of it once a terminal event has been sent; and when he is sent `eof` it is all of it,
  -- or the job is not registered any more.
  pub stream-Runs :
      (jobs : DrainJobs B.Sender) (replay : List DrainEvent) (rx : B.Receiver) (done : Bool)
      (t : Session B)
      → Reach B (new B executor) jobs
      → subscribe B owner id jobs ≡ some (replay, rx, done)
      → Runs B owner id (open_session B jobs replay rx done) t
      → (t.out ≡ take (length t.out) t.log)
        × (t.live.stop ≡ true → t.out ≡ t.log)
        × (t.eof ≡ true → (t.out ≡ t.log) ⊎ (find id t.jobs.entries ≡ none))
  stream-Runs jobs replay rx done t r h runs =
      let (e, found, own, buffer, receiver, over_now) =
        subscribe_inv B owner id jobs replay rx done h in
      let begun : Tracks (open_session B jobs replay rx done) =
        subst (λ d. Tracks (open_session B jobs replay rx d)) over_now
          (subst₂ (λ es q. Tracks (open_session B jobs es q e.done)) buffer receiver
            (open_session-Tracks jobs e r found own)) in
      let w = Runs-Tracks (open_session B jobs replay rx done) t runs begun in
      let sent : t.out ≡ take (length t.out) t.log =
        sent_prefix w.count t.log t.out t.live.pending w.is_prefix.taken w.is_prefix.bound in
      let whole : EndsTerminal t.out → t.out ≡ t.log = λ (xs, ev, split, terminal).
        sent
        ∙ complete-take w.sealed_as (length t.out) t.log xs ev w.is_sealed (sym sent ∙ split)
            terminal in
      (
        sent,
        λ stopped. whole (w.stopped stopped),
        λ over. elim (w.ended over) [ inl x ↦ inl (whole x) | inr gone ↦ inr gone ],
      )
