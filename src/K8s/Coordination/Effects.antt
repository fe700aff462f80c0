-- ===== src/K8s/Coordination/Effects.antt =====
-- What one step of a task of crates/k8s/src/coordination.rs does to the lease, without the detail of the
-- calls.
pub mod Calls
use roder.Prelude.{
  ℕ, suc, zero, ◌<◌, ◌≤◌, String, ◌≡◌, ◌⊎◌, inl, inr, refl, sym, ap, ◌∙◌, subst, Bool, true, false,
  not, Option, none, some, List, [], ◌∷◌, Result, ok, err, arith, if◌then◌else◌, Bool-cases,
  Option-cases, unwrap_or, string_eq, ◌==◌, ==_iff,
}
use roder.K8s.Errors.{KubeError}
use roder.K8s.Pod.{Pod}
use roder.K8s.Coordination.{
  Lease, LeaseSpec, SpecPatch, spec_holder, holder_of, is_held_by, holder_pod_exists, pods,
  new_lease, take_over, renewal, give_up, Acquiring, Next, going_on, fetching, checking, writing,
  ended, after_get, after_list, after_write, Renewing, idle, reading, stamping, Holding, held,
  renewed, Releasing, looking, clearing, busy, kubernetes,
}
use roder.K8s.Coordination.Server.{LeaseApi, IsOptimistic, Same, Wrote, Failed, merge}
use roder.K8s.Coordination.Tasks.{
  Task, resting, acquiring, holding, dropped, releasing, settled, to_stamp, after_look, after_read,
  after_dropped_read, resume, resume_holding, resume_dropped, resume_releasing, advance, is_alive,
}

-- A task owns the lease from the moment its write is accepted until it gives the lease up.
abbrev pub owns : Task → Bool
owns resting = false
owns (acquiring a) = false
owns (holding h) = true
owns (dropped r) = false
owns (releasing r) = true

-- A task that is about to ask for something, and has read nothing that it will act on.
abbrev pub blank_renewing : Renewing → Bool
blank_renewing idle = true
blank_renewing reading = true
blank_renewing (stamping l) = false

abbrev pub is_blank : Task → Bool
is_blank resting = true
is_blank (acquiring (fetching left)) = true
is_blank (acquiring (checking left l h)) = false
is_blank (acquiring (writing left o)) = false
is_blank (holding h) = blank_renewing h.renewing
is_blank (dropped r) = blank_renewing r
is_blank (releasing looking) = true
is_blank (releasing (clearing l)) = false

abbrev pub option_holder : Option Lease → Option String
option_holder none = none
option_holder (some l) = holder_of l

module _ (A : LeaseApi) where
  open A use {World, stored, revision}

  abbrev pub holder_at : World → Option String
  holder_at w = option_holder (stored w)

  -- The lease that is stored is still the one that was read.
  abbrev pub Current : Option Lease → World → Type 0
  Current none w = stored w ≡ none
  Current (some l) w =
      (l' : Lease) × (stored w ≡ some l') × (l'.resource_version ≡ l.resource_version)

  abbrev pub ToldRenewing : World → Renewing → Type 0
  ToldRenewing w idle = Unit
  ToldRenewing w reading = Unit
  ToldRenewing w (stamping l) = stored w ≡ some l

  -- What a task has just learnt, at `w`, when it stands at its second state.
  abbrev pub Told : String → World → Task → Task → Type 0
  Told holder w t resting = Unit
  Told holder w t (acquiring (fetching left)) = Unit
  Told holder w t (acquiring (checking left l h)) = (stored w ≡ some l) × (holder_of l ≡ some h)
  Told holder w t (acquiring (writing left o)) =
      ((stored w ≡ o) × (holder_at w ≡ none))
      ⊎ ((n : ℕ) × (l : Lease) × (h : String) × (t ≡ acquiring (checking n l h))
          × (o ≡ some l)
          × (is_alive A h w ≡ false))
  Told holder w t (holding h) = ToldRenewing w h.renewing
  Told holder w t (dropped r) = ToldRenewing w r
  Told holder w t (releasing looking) = Unit
  Told holder w t (releasing (clearing l)) = (stored w ≡ some l) × (holder_of l ≡ some holder)

  -- The lease has been replaced, by one with a version of its own.
  abbrev pub Replaced : Option String → World → World → Type 0
  Replaced holder w w' =
      (l : Lease) × (stored w' ≡ some l)
      × (l.resource_version ≡ revision w')
      × (holder_of l ≡ holder)
      × (A.listed w' ≡ A.listed w)
      × (revision w < revision w')

  pub data Effect (holder : String) (t t' : Task) (w w' : World) : Type 0 where
    quiet :
        Same A w w'
        → Told holder w t t'
        → (owns t' ≡ true → owns t ≡ true)
        → Effect holder t t' w w'
    took :
        (left : ℕ) (o : Option Lease)
        → t ≡ acquiring (writing left o)
        → Current o w
        → Replaced (some holder) w w'
        → is_blank t' ≡ true
        → Effect holder t t' w w'
    stamped :
        Replaced (holder_at w) w w'
        → is_blank t' ≡ true
        → (owns t' ≡ true → owns t ≡ true)
        → Effect holder t t' w w'
    cleared :
        (l : Lease)
        → t ≡ releasing (clearing l)
        → Current (some l) w
        → Replaced none w w'
        → t' ≡ resting
        → Effect holder t t' w w'
