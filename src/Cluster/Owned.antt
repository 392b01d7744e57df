-- ===== src/Cluster/Owned.antt =====
-- No entry of `pending_model_runs` of model_cluster.py is ever orphaned, over every history.
use model_runner_client.Base.{
  ℕ, zero, suc, ◌≡◌, ◌||◌, refl, sym, subst, ap, ◌∙◌, Bool, true, false, Option, none, some, List,
  [], ◌∷◌, ◌++◌, arith, Bool-cases, inl, inr, get_elem?, set, All-get_elem?, ltb,
}
use model_runner_client.Base.Eq.{nat_equality, string_equality, option_equality}
use mathlib.Core.Option.{some-injective}
use model_runner_client.Dict
use model_runner_client.Dict.{Dict, get-nil}
use model_runner_client.Credentials.{SecureCredentials, GatewayCredentials}
use model_runner_client.Runner.{ModelRunner, Key}
use model_runner_client.Concurrent.{Ref}
use model_runner_client.Cluster.{Cluster, Task, store}
use model_runner_client.Cluster.Coroutines.{Answer, resume}
use model_runner_client.Cluster.Pending.{initializes, pending-model_factory}
use model_runner_client.Cluster.WellFormed.{TaskIn}
use model_runner_client.Cluster.Handover.{resume-IsHandedOn}
use model_runner_client.Cluster.World.{
  World, Event, turn, update, init_end, spawn, socket, counts, turn_task, step, run, new_world,
}
use model_runner_client.Cluster.Updates.{
  ModelUpdate, get_model_id, get_model_name, update_infos, update_model_runs,
}
use model_runner_client.Cluster.Rule.{IsLoopRule, update_model_runs-holds}
use model_runner_client.Cluster.Events.{IsValid, step-IsValid, new_world-IsValid}

-- Some task is in `init` for the runner.
abbrev pub is_initialized : Ref → List Task → Bool
is_initialized q [] = false
is_initialized q (t ∷ ts) = initializes t q || is_initialized q ts

abbrev pub IsOwned : Dict Key Ref → List Task → Type 0
IsOwned d ts = (k : Key) (q : Ref) → Dict.get k d ≡ some q → is_initialized q ts ≡ true

is_initialized-append :
    (q : Ref) (ts us : List Task) → is_initialized q ts ≡ true → is_initialized q (ts ++ us) ≡ true
is_initialized-append q [] us h = cc
is_initialized-append q (t ∷ ts) us h = ground (arith, is_initialized-append q ts us)

-- Replacing a task that is not in `init` for the runner, or by one that is.
is_initialized-set :
    (q : Ref) (ts : List Task) (i : ℕ) (t t' : Task)
    → get_elem? ts i ≡ some t
    → is_initialized q ts ≡ true
    → initializes t q ≡ false
    → is_initialized q (set ts i t') ≡ true
is_initialized-set q [] i t t' e h n = cc
is_initialized-set q (u ∷ ts) zero t t' e h n =
    let f = subst (λ x. initializes x q ≡ false) (sym (some-injective u t e)) n in ground arith
is_initialized-set q (u ∷ ts) (suc i) t t' e h n = ground (arith, is_initialized-set q ts i t t' e)

is_initialized-set_self :
    (q : Ref) (ts : List Task) (i : ℕ) (t t' : Task)
    → get_elem? ts i ≡ some t
    → initializes t' q ≡ true
    → is_initialized q (set ts i t') ≡ true
is_initialized-set_self q [] i t t' e n = cc
is_initialized-set_self q (u ∷ ts) zero t t' e n = rw n refl
is_initialized-set_self q (u ∷ ts) (suc i) t t' e n =
    ground (arith, is_initialized-set_self q ts i t t' e n)

-- The loop over the updates does not touch the pending models.
same_pending-rule : IsLoopRule (λ s s' ts. s'.pending_model_runs ≡ s.pending_model_runs)
same_pending-rule = record {
  stays = λ s. refl;
  removes = λ u s r e. refl;
  updates = λ u s r. unfold update_infos store in refl;
  creates = λ u s s' r e.
      pending-model_factory u.deployment_id (get_model_id u) (get_model_name u) u.ip u.port u.infos
        s (s', r) e;
  goes_on = λ s t u ts us a b. b ∙ a;
  drops = λ s t ts a. a;
}

pending-update_model_runs :
    (us : List ModelUpdate) (s : Cluster)
    → (update_model_runs us s).0.pending_model_runs ≡ s.pending_model_runs
pending-update_model_runs = update_model_runs-holds _ same_pending-rule

abbrev pub Owns : World → Type 0
Owns w = IsOwned w.cluster.pending_model_runs w.tasks

turn_task-Owns :
    (i : ℕ) (a : Answer) (o : Option Task) (w : World)
    → IsValid w
    → ((t : Task) → o ≡ some t → TaskIn w.cluster t)
    → get_elem? w.tasks i ≡ o
    → Owns w
    → Owns (turn_task i a o w)
unfolding turn_task
turn_task-Owns i a none w v h g own = own
turn_task-Owns i a (some t) w v h g own = λ k q e.
    let t' = (resume t a w.cluster).1 in
    elim (resume-IsHandedOn t a w.cluster (h t refl) v.well_formed k q e) [
      | inl c ↦ is_initialized-set_self q w.tasks i t t' g c
      | inr (f, n) ↦ is_initialized-set q w.tasks i t t' g (own k q f) n
    ]

step-Owns : (e : Event) (w : World) → IsValid w → Owns w → Owns (step e w)
unfolding step
step-Owns (turn i a) w v own =
    turn_task-Owns i a (get_elem? w.tasks i) w v
      (λ t. All-get_elem? (TaskIn w.cluster) w.tasks i t v.tasks_in) refl own
step-Owns (update us) w v own = λ k q e.
    is_initialized-append q w.tasks _
      (own k q (ap (Dict.get k) (sym (pending-update_model_runs us w.cluster)) ∙ e))
step-Owns (init_end us) w v own = λ k q e. is_initialized-append q w.tasks _ (own k q e)
step-Owns (spawn r action) w v own = elim (Bool-cases (ltb r w.cluster.next)) [
  | inr e ↦ simp e own
  | inl e ↦ simp e (λ k q f. is_initialized-append q w.tasks _ (own k q f))
]
step-Owns (socket c) w v own = own
step-Owns (counts r failures timeouts cooldown) w v own = own

run-Owns : (es : List Event) (w : World) → IsValid w → Owns w → Owns (run es w)
unfolding run
run-Owns [] w v own = own
run-Owns (e ∷ es) w v own = run-Owns es (step e w) (step-IsValid e w v) (step-Owns e w v own)

-- After any history, every pending runner is the runner of a task that is in `init` for it.
pub pending_owned :
    (es : List Event) (blank : ModelRunner) (report_failure : Bool)
    (secure : Option SecureCredentials) (gateway : Option GatewayCredentials) (k : Key) (q : Ref)
    → Dict.get k (run es (new_world blank report_failure secure gateway)).cluster.pending_model_runs
      ≡ some q
    → is_initialized q (run es (new_world blank report_failure secure gateway)).tasks ≡ true
pending_owned es blank report_failure secure gateway =
    run-Owns es _ (new_world-IsValid blank report_failure secure gateway)
      (unfold new_world in λ k q e. cc (get-nil {V = Ref} k))
