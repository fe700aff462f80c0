-- ===== src/Server/DrainJobs/Ids.antt =====
-- A job's id is not used again.
use roder.Prelude.{ℕ, ◌≤◌, ◌<◌, ◌≡◌, ap, none, arith, nat_eq}
use roder.Prelude.Maps.{find, find-insert, find-update, find-remove}
use roder.Core.Drain.{DrainEvent}
use roder.Server.Broadcast.{Broadcast}
use roder.Server.DrainJobs.{DrainJobs, new_entry, emit_entry, finish_entry}
use roder.Server.DrainJobs.Changes.{
  Change, close_entry, same, registered, flagged, lost, closed, emitted, ended, removed,
}

module _ (B : Broadcast DrainEvent) where
  pub Change-absent :
      (s t : DrainJobs B.Sender) (id : ℕ)
      → Change B s t
      → id < s.next_id
      → find id s.entries ≡ none
      → find id t.entries ≡ none
  Change-absent s t id (same e) h f = rw e f
  Change-absent s t id (registered owner key target power now free small e) h f = rw e (
      ground (
        arith,
        f,
        h,
        find-insert s.next_id id (new_entry B owner key target power now s.next_flag) s.entries,
      ))
  Change-absent s t id (flagged k y found c e) h f = rw e f
  Change-absent s t id (lost flag small e) h f = rw e f
  Change-absent s t id (closed k y found d c u e) h f =
      rw e (ground (arith, f, find-update k id (close_entry B) s.entries))
  Change-absent s t id (emitted k kind n e) h f =
      rw e (ground (arith, f, find-update k id (emit_entry B kind) s.entries))
  Change-absent s t id (ended k kind now y found d n e) h f =
      rw e (ground (arith, f, find-update k id (finish_entry B kind) s.entries))
  Change-absent s t id (removed k now due e) h f =
      rw e (ground (arith, f, find-remove k id s.entries))

  pub Change-next_id : (s t : DrainJobs B.Sender) → Change B s t → s.next_id ≤ t.next_id
  Change-next_id s t (same e) = omega (arith, ap (λ r. r.next_id) e)
  Change-next_id s t (registered owner key target power now free small e) =
      omega (arith, ap (λ r. r.next_id) e)
  Change-next_id s t (flagged k y found c e) = omega (arith, ap (λ r. r.next_id) e)
  Change-next_id s t (lost flag small e) = omega (arith, ap (λ r. r.next_id) e)
  Change-next_id s t (closed k y found d c u e) = omega (arith, ap (λ r. r.next_id) e)
  Change-next_id s t (emitted k kind n e) = omega (arith, ap (λ r. r.next_id) e)
  Change-next_id s t (ended k kind now y found d n e) = omega (arith, ap (λ r. r.next_id) e)
  Change-next_id s t (removed k now due e) = omega (arith, ap (λ r. r.next_id) e)
