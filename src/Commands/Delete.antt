-- ===== src/Commands/Delete.antt =====
-- cmd/rcl/commands/delete.go: `rcl delete`. The containerd client is a parameter: what it loads may
-- fail, and only the two calls of Delete change anything.
use containerd_attributes_cl.Base.{
  Text, lit, List, [], ◌∷◌, if◌then◌else◌, ◌||◌, Error, message, Result, ok, err, Done, ◌≡◌, ◌⊎◌,
  ◌∙◌, arith, Result-cases, inl, inr, Eq, ◌==◌, Run, returns, panics,
}

-- containerd.ProcessStatus
pub data Status : Type 0 where
  running created stopped paused pausing unknown : Status

Status-discrete : Discrete Status
Status-discrete = hlevel

instance unfoldable pub status_eq : Eq Status
unfolding Status-discrete
status_eq = record { dec = Status-discrete }

pub record Client : Type 1 where
  pub State : Type 0
  pub Container : Type 0
  pub Task : Type 0
  -- containerd.New, at the address of the socket
  pub connect : State → Text → Done
  pub load_container : State → Text → Result Container
  pub task : State → Container → Result Task
  pub status : State → Task → Result Status
  pub delete_task : Task → State → Done × State
  pub delete_container : Container → State → Done × State

-- `DeleteOptions.Complete`: `args[0]`
unfoldable pub complete : List Text → Run Text
complete [] = panics
complete (id ∷ rest) = returns (ok id)

module _ (C : Client) where
  open C use {State, Container, Task}

  -- The container goes after its task.
  pub delete_after_task : Container → Done × State → Done × State
  delete_after_task container (ok _, s) = C.delete_container container s
  delete_after_task container (err e, s) = (err e, s)

  pub delete_with_task : Container → Task → State → Done × State
  unfolding delete_after_task
  delete_with_task container task s = elim (C.status s task) [
    | err e ↦ (err e, s)
    | ok status ↦
        if status == stopped || status == created
        then delete_after_task container (C.delete_task task s)
        else (err (message (lit "cannot delete a non stopped container")), s)
  ]

  -- `deleteContainer`
  unfoldable pub delete_container : Text → State → Done × State
  unfolding delete_with_task
  delete_container id s = elim (C.load_container s id) [
    | err e ↦ (err e, s)
    | ok container ↦ elim (C.task s container) [
      | err e ↦ C.delete_container container s
      | ok task ↦ delete_with_task container task s
    ]
  ]

  -- `DeleteOptions.Run`
  unfoldable pub run : Text → Text → State → Done × State
  unfolding delete_container
  run address id s = elim (C.connect s address) [
    | err e ↦ (err e, s)
    | ok _ ↦ delete_container id s
  ]

  delete_with_task_success :
      (c : Container) (t : Task) (s : State)
      → (delete_with_task c t s).0 ≡ ok tt
      → ((C.status s t ≡ ok stopped) ⊎ (C.status s t ≡ ok created))
        × ((C.delete_task t s).0 ≡ ok tt)
        × (delete_with_task c t s ≡ C.delete_container c (C.delete_task t s).1)
  unfolding delete_with_task
  delete_with_task_success c t s h = elim (Result-cases (C.status s t)) [
    | inr (e, p) ↦ absurd (ground (arith, p, h))
    | inl (status, p) ↦ elim (Result-cases (C.delete_task t s).0) [
      | inr (e, q) ↦ absurd (ground (arith, p, q, h))
      | inl (_, q) ↦ (ground (arith, p, q, h), q, ground (arith, p, q, h))
    ]
  ]

  run_with_task :
      (address id : Text) (s : State) (c : Container) (t : Task)
      → C.connect s address ≡ ok tt
      → C.load_container s id ≡ ok c
      → C.task s c ≡ ok t
      → (run address id s).0 ≡ ok tt
      → ((C.status s t ≡ ok stopped) ⊎ (C.status s t ≡ ok created))
        × ((C.delete_task t s).0 ≡ ok tt)
        × (run address id s ≡ C.delete_container c (C.delete_task t s).1)
  unfolding run
  run_with_task address id s c t o l k h =
      let same : run address id s ≡ delete_with_task c t s = ground arith in
      let (a, b, e) = delete_with_task_success c t s (rw same at h) in (a, b, same ∙ e)

  -- The command succeeds only if the container is there and was deleted last, and its task, if
  -- the call for it gives one, was stopped or created and was deleted before.
  pub run_success :
      (address id : Text) (s : State)
      → (run address id s).0 ≡ ok tt
      → (c : Container) × (C.load_container s id ≡ ok c)
        × (((e : Error) × (C.task s c ≡ err e) × (run address id s ≡ C.delete_container c s))
            ⊎ ((t : Task) × (C.task s c ≡ ok t)
                × ((C.status s t ≡ ok stopped) ⊎ (C.status s t ≡ ok created))
                × ((C.delete_task t s).0 ≡ ok tt)
                × (run address id s ≡ C.delete_container c (C.delete_task t s).1)))
  unfolding run
  run_success address id s h = elim (Result-cases (C.load_container s id)) [
    | inr (e, p) ↦ absurd (ground (arith, p, h))
    | inl (c, p) ↦ elim (Result-cases (C.connect s address)) [
      | inr (e, o) ↦ absurd (ground (arith, o, h))
      | inl (_, o) ↦ elim (Result-cases (C.task s c)) [
        | inr (e, q) ↦ (c, p, inl (e, q, ground (arith, o, p, q)))
        | inl (t, q) ↦
            let (a, b, e) = run_with_task address id s c t o p q h in (c, p, inr (t, q, a, b, e))
      ]
    ]
  ]
