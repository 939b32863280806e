-- ===== src/Sessions/Examples.antt =====
-- The session store at work: two users and a cluster that starts, refuses and stops workloads.
use ldndrc.Base.{
  ◌≡◌, ◌≢◌, refl, ◌↔◌, ◌≤◌, ◌+◌, ◌&&◌, String, ℕ, Bool, true, none, some, [], ◌∷◌, Result, ok, err,
  not, arith, if◌then◌else◌, hex_encode, str_eq, ne_of_str_eq,
}
use ldndrc.Base.Map.{lookup, put, any_value}
use ldndrc.Sessions.Types.{
  ready, stopped, error, Session, Error, invalid_status, provision, Store, Env, Provisioner, saved,
  absent, persist,
}
use ldndrc.Sessions.Domain.{
  min_domain, max_domain, Allocates, next_domain_id, next_domain_id-Allocates,
}
use ldndrc.Sessions.Store.{
  new_id, new_session, create_locked, set_status, has_active, save_locked, insert_session,
  valid_transition, save_status,
}
use ldndrc.Sessions.Methods.{
  get, current, delete, create, provision_session, probe, reconcile, is_live,
}
use ldndrc.Sessions.Load.{new_store, new_store_with_path}
use ldndrc.Sessions.Invariant.{IsWellFormed}
use ldndrc.Sessions.Status.{restatus}
use ldndrc.Sessions.Sections.{
  IsFresh, Reach, here, next, creates, sets, Reach-IsWellFormed, new_store-IsWellFormed,
}
use ldndrc.Sessions.Lifecycle.{active_sessions_apart, Persists, Reach-Persists}
use ldndrc.Sessions.Calls.{calls-Reach}
use ldndrc.Sessions.Answers.{delete_failed_session}
use ldndrc.Sessions.Creation.{GivenUp, create_locked-err, create_provision_failed}
use ldndrc.Sessions.Loading.{Active}
use ldndrc.Base.Map.{Visits}
use ldndrc.Sessions.Restart.{restart_rebuilds}
use ldndrc.Sessions.Manifests.{Settings, deployment}
use ldndrc.Sessions.Isolation.{ros_domain, separate_domains}
use ldndrc.Sessions.Reconciliation.{reconcile-verdict}

abbrev alice_env : Env
alice_env = record { now = 5; random = ok (1 ∷ 2 ∷ 3 ∷ []); write = none }

abbrev pub bob_env : Env
bob_env = record { now = 7; random = ok (10 ∷ 11 ∷ 12 ∷ []); write = none }

abbrev pub later_env : Env
later_env = record { now = 9; random = err "no entropy"; write = none }

abbrev pub alice : Session
alice = new_session alice_env "alice" "010203" 100

abbrev bob : Session
bob = new_session bob_env "bob" "0a0b0c" 101

abbrev pub with_alice : Store
with_alice = (create_locked alice_env "alice" new_store).1

abbrev pub with_both : Store
with_both = (create_locked bob_env "bob" with_alice).1

IsFresh-of_id :
    (env : Env) (s : Store) (id : String)
    → new_id env.random ≡ ok id
    → lookup id s.sessions ≡ none
    → IsFresh env s
IsFresh-of_id env s id e h i e' = ground (arith, e, e', h)

alice-IsFresh : IsFresh alice_env new_store
unfolding new_id hex_encode new_store lookup
alice-IsFresh = IsFresh-of_id alice_env new_store "010203" refl refl

alice_created : create_locked alice_env "alice" new_store ≡ (ok alice, with_alice)
unfolding create_locked has_active new_id hex_encode new_store lookup next_domain_id any_value
    insert_session save_locked
alice_created = refl

pub bob-IsFresh : IsFresh bob_env with_alice
unfolding new_id hex_encode new_store lookup create_locked has_active next_domain_id any_value
    insert_session save_locked put new_session
bob-IsFresh = IsFresh-of_id bob_env with_alice "0a0b0c" refl refl

pub alice_well : IsWellFormed with_alice
alice_well =
    Reach-IsWellFormed new_store-IsWellFormed
      (next here (creates alice_env "alice" alice-IsFresh refl))

both_reached : Reach new_store with_both
both_reached =
    next (next here (creates alice_env "alice" alice-IsFresh refl))
      (creates bob_env "bob" bob-IsFresh refl)

pub alice_found : lookup "010203" with_both.sessions ≡ some alice
unfolding new_id hex_encode new_store lookup create_locked has_active next_domain_id any_value
    insert_session save_locked put new_session
alice_found = refl

bob_found : lookup "0a0b0c" with_both.sessions ≡ some bob
unfolding new_id hex_encode new_store lookup create_locked has_active next_domain_id any_value
    insert_session save_locked put new_session
bob_found = refl

pub both_well : IsWellFormed with_both
both_well = Reach-IsWellFormed new_store-IsWellFormed both_reached

active_sessions_apart_example :
    (alice.username ≡ bob.username → alice.id ≡ bob.id)
    × (alice.ros_domain_id ≡ bob.ros_domain_id → alice.id ≡ bob.id)
    × (min_domain ≤ alice.ros_domain_id)
    × (alice.ros_domain_id ≤ max_domain)
unfolding new_session
active_sessions_apart_example =
    active_sessions_apart "010203" "0a0b0c" alice bob both_reached alice_found bob_found refl refl

-- alice's session is stopped, by an operator.
abbrev stopping_alice : Store
stopping_alice = (set_status later_env "alice" "010203" stopped "" with_both).1

Reach-Persists_example : Persists "010203" alice stopping_alice
Reach-Persists_example =
    Reach-Persists "010203" alice alice_found
      (next here (sets later_env "alice" "010203" stopped "" refl))

next_domain_id-Allocates_example : Allocates with_both.sessions (next_domain_id with_both.sessions)
next_domain_id-Allocates_example = next_domain_id-Allocates with_both.sessions both_well.unique

-- A cluster that counts its workloads and starts them at once.
abbrev pub cluster : Provisioner ℕ
cluster = record {
  apply = λ x w. (none, w + 1);
  delete = λ x w. (none, w);
  ready = some (λ x w. (ok true, w));
}

-- A cluster that is full.
abbrev full : Provisioner ℕ
full = record cluster { apply = λ x w. (some "no capacity", w) }

there : Session → Bool
there x = str_eq x.username "bob"

calls-Reach_example :
    (IsFresh bob_env with_alice
      → Reach with_alice (create (some cluster) bob_env later_env "bob" with_alice 1).1)
    × Reach with_alice (get (some cluster) bob_env "bob" "010203" with_alice 1).1
    × Reach with_alice (current (some cluster) bob_env "bob" with_alice 1).1
    × Reach with_alice (delete (some cluster) bob_env later_env "bob" "010203" with_alice 1).1
    × Reach with_alice (reconcile with_alice.sessions there (λ x. later_env) with_alice).2
calls-Reach_example =
    calls-Reach (some cluster) bob_env later_env "bob" "010203" with_alice 1 with_alice.sessions
      there (λ x. later_env)

abbrev pub ready_alice : Session
ready_alice = restatus later_env ready "" alice

pub current_ready : (current (some cluster) later_env "alice" with_both 2).0 ≡ ok ready_alice
unfolding current probe set_status save_status valid_transition new_id hex_encode new_store lookup
    create_locked has_active next_domain_id any_value insert_session save_locked put new_session
current_ready = refl

abbrev pub pods : Settings
pods = record { namespace = "ldndrc"; image = "ros2:jazzy"; storage_size = "5Gi"; gpu_limit = "" }

abbrev failed_alice : Session
failed_alice = restatus later_env error "no capacity" alice

abbrev with_failed : Store
with_failed = (set_status later_env "alice" "010203" error "no capacity" with_alice).1

failed_found : lookup "010203" with_failed.sessions ≡ some failed_alice
unfolding set_status save_status valid_transition new_id hex_encode new_store lookup create_locked
    has_active next_domain_id any_value insert_session save_locked put new_session
failed_found = refl

delete_failed_session_example :
    delete (some cluster) later_env later_env "alice" "010203" with_failed 1
    ≡ (err (invalid_status error stopped), with_failed, 1)
unfolding new_session
delete_failed_session_example =
    delete_failed_session cluster later_env later_env "alice" "010203" failed_alice with_failed 1
      failed_found refl refl refl

-- bob's session cannot be saved: the disk is full.
abbrev full_disk : Env
full_disk = record bob_env { write = some ("no space left on device", absent) }

abbrev on_disk : Store
on_disk = record with_alice { path = "sessions.json" }

disk-IsFresh : IsFresh full_disk on_disk
unfolding new_id hex_encode new_store lookup create_locked has_active next_domain_id any_value
    insert_session save_locked put new_session
disk-IsFresh = IsFresh-of_id full_disk on_disk "0a0b0c" refl refl

disk_fails : (create_locked full_disk "bob" on_disk).0 ≡ err (persist "no space left on device")
unfolding new_id hex_encode new_store lookup create_locked has_active next_domain_id any_value
    insert_session save_locked put new_session
disk_fails = refl

create_locked-err_example :
    ((create_locked full_disk "bob" on_disk).1.sessions ≡ on_disk.sessions)
    × ((create_locked full_disk "bob" on_disk).1.by_user ≡ on_disk.by_user)
create_locked-err_example =
    create_locked-err full_disk "bob" on_disk (persist "no space left on device") disk-IsFresh
      disk_fails

-- bob asks for a session while the full cluster refuses alice's.
abbrev refused : Result Error Session × Store × ℕ
refused = provision_session (some full) later_env alice with_both 0

create_provision_failed_example :
    (create (some full) alice_env later_env "alice" new_store 0
      ≡ provision_session (some full) later_env alice with_alice 0)
    × (refused.0 ≡ err (provision "no capacity"))
    × (refused.2 ≡ 0)
    × GivenUp later_env "alice" "no capacity" alice with_both refused.1
create_provision_failed_example =
    create_provision_failed full alice_env later_env "alice" new_store with_alice with_both alice
      "no capacity" 0 new_store-IsWellFormed alice-IsFresh alice_created
      (next here (creates bob_env "bob" bob-IsFresh refl)) refl

pub both_visited : Visits with_both.sessions with_both.sessions
both_visited = record { once = both_well.unique; same = λ k. refl }

restart_rebuilds_example :
    (t : Store) × (new_store_with_path "sessions.json" (saved with_both.sessions) ≡ ok t)
    × IsWellFormed t
    × ((k : String) → lookup k t.sessions ≡ lookup k with_both.sessions)
    × ((u i : String) → (lookup u t.by_user ≡ some i) ↔ Active with_both.sessions u i)
restart_rebuilds_example =
    restart_rebuilds with_both with_both.sessions "sessions.json" both_well both_visited
      (ne_of_str_eq "sessions.json" "" refl)

-- bob's workload is there after the restart, alice's is gone.
reconcile-verdict_example :
    lookup "010203" (reconcile with_both.sessions there (λ x. later_env) with_both).2.sessions
    ≡ some (
        if is_live alice.status && not (there alice)
        then restatus later_env stopped "workload gone at restart" alice
        else alice)
reconcile-verdict_example =
    reconcile-verdict with_both with_both.sessions there (λ x. later_env) "010203" alice both_well
      both_visited alice_found

separate_domains_example : ros_domain (deployment pods alice) ≢ ros_domain (deployment pods bob)
unfolding new_session
separate_domains_example =
    separate_domains pods "010203" "0a0b0c" alice bob both_reached alice_found bob_found refl refl
      (ne_of_str_eq "010203" "0a0b0c" refl)
