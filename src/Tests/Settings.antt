-- ===== src/Tests/Settings.antt =====
-- Runs of aritfact/options and of the commands of cmd/rcl.
use containerd_attributes_cl.Base.{
  All, is_empty, false, Text, lit, List, [], ◌∷◌, ◌++◌, Option, none, Bool, true, false, not,
  if◌then◌else◌, Error, sentinel, not_found, Result, ok, err, Done, panics, ◌≡◌, ◌⊎◌, ◌↔◌, ◌<◌,
  refl, arith, text_eq, nat_eq, length, ◌≤◌, load, before, after?,
}
use containerd_attributes_cl.Options.Env.{replace_or_append_env_values}
use containerd_attributes_cl.Options.Env.Compact.{nonempty}
use containerd_attributes_cl.Options.Env.Merge.{
  settle, additions, replace_or_append_env_values-eq-settle, replace_or_append_env_values_unset_new,
}
use containerd_attributes_cl.Options.Env.Bounds.{replace_or_append_env_values_compact}
use containerd_attributes_cl.Options.Config.{
  ImageConfig, Spec, UserOpts, process_or_empty, with_image_config_args,
}
use containerd_attributes_cl.Options.Config.Arguments.{
  SetsUserOnly, with_image_config_args_linux, with_image_config_args_windows,
}
use containerd_attributes_cl.Commands.Delete.{
  Client, Status, running, stopped, created, run, run_success,
}
use containerd_attributes_cl.Commands.Labels.{build_labels, or_else, accepted, load-build_labels}

abbrev path : Text
path = b'P' ∷ b'=' ∷ b'1' ∷ []

abbrev path_again : Text
path_again = b'P' ∷ b'=' ∷ b'2' ∷ []

abbrev home : Text
home = b'H' ∷ []

replace_or_append_env_values-eq-settle_example :
    replace_or_append_env_values (path ∷ []) (path_again ∷ home ∷ [])
    ≡ nonempty (
        settle (path ∷ []) (path_again ∷ home ∷ [])
        ++ additions (path ∷ []) (path_again ∷ home ∷ []))
replace_or_append_env_values-eq-settle_example =
    replace_or_append_env_values-eq-settle (path ∷ []) (path_again ∷ home ∷ [])

computes : List Text → Text → Option Text
unfolding text_eq nat_eq load before after? replace_or_append_env_values lit
computes env k = load k []

replace_or_append_env_values_unset_new_example :
    replace_or_append_env_values (path ∷ []) ((home ++ b'=' ∷ home) ∷ home ∷ [])
    ≡ nonempty (path ∷ (home ++ b'=' ∷ home) ∷ [])
unfolding computes
replace_or_append_env_values_unset_new_example =
    replace_or_append_env_values_unset_new (path ∷ []) home home refl (omega arith)

replace_or_append_env_values_compact_example :
    let merged = replace_or_append_env_values (path ∷ []) (path_again ∷ home ∷ []) in
    All (λ e. is_empty e ≡ false) merged × (length merged ≤ 3)
replace_or_append_env_values_compact_example =
    replace_or_append_env_values_compact (path ∷ []) (path_again ∷ home ∷ [])

abbrev pub user_opts : UserOpts
user_opts = record {
  with_user = λ u s. (ok tt, s);
  with_additional_gids = λ g s. (ok tt, s);
  decimal = λ n. [];
}

pub user_opts-SetsUserOnly : SetsUserOnly user_opts
user_opts-SetsUserOnly = record {
  with_user-SameCommand = λ u s. (refl, refl, refl);
  with_gids-SameCommand = λ g s. (refl, refl, refl);
}

abbrev image_config : Bool → ImageConfig
image_config escaped = record {
  user = [];
  env = path ∷ [];
  entrypoint = home ∷ [];
  cmd = home ∷ [];
  working_dir = [];
  stop_signal = b'9' ∷ [];
  args_escaped = escaped;
}

abbrev spec : Bool → Spec
spec linux = record { linux = linux; windows = not linux; process = none }

with_image_config_args_linux_example :
    let p =
      process_or_empty
        (with_image_config_args user_opts (ok (image_config false)) [] (spec true)).1.process in
    (p.args ≡ home ∷ home ∷ [])
    × (p.env ≡ replace_or_append_env_values (path ∷ []) [])
    × (p.cwd ≡ lit "/")
with_image_config_args_linux_example =
    with_image_config_args_linux user_opts (image_config false) [] (spec true)
      user_opts-SetsUserOnly refl

with_image_config_args_windows_example :
    ((with_image_config_args user_opts (ok (image_config true)) [] (spec false)).0 ≡ panics)
    ↔ ((◌≡◌ {A = Bool} true true) × (◌≡◌ {A = Bool} true true) × (1 < 2))
with_image_config_args_windows_example =
    with_image_config_args_windows user_opts (image_config true) [] (spec false) refl refl

-- A client with one container, whose task runs; and whether it is still there.
abbrev client_with : Result (Unit {0}) → Client
client_with task = record {
  State = Bool;
  Container = Unit {0};
  Task = Unit {0};
  connect = λ s address. ok tt;
  load_container = λ s id. if s then ok tt else err (sentinel not_found);
  task = λ s c. task;
  status = λ s t. ok running;
  delete_task = λ t s. (ok tt, s);
  delete_container = λ c s. (ok tt, false);
}

abbrev no_labels : List (Text × Text)
no_labels = []

load-build_labels_example :
    load home (build_labels (λ k v. ok tt) ((home, path) ∷ []) ((home, home) ∷ []))
    ≡ or_else
        (load home ((home, path) ∷ []))
        (accepted (λ k v. ok tt) home (load home ((home, home) ∷ [])))
unfolding computes
load-build_labels_example =
    load-build_labels (λ k v. ok tt) home ((home, path) ∷ []) ((home, home) ∷ []) (refl, tt)
      (refl, tt)

deletes : (run (client_with (err (sentinel not_found))) [] [] true).0 ≡ ok tt
unfolding run
deletes = refl

run_success_example :
    (c : Unit {0}) × (◌≡◌ {A = Result (Unit {0})} (ok tt) (ok c))
    × (((e : Error) × (◌≡◌ {A = Result (Unit {0})} (err (sentinel not_found)) (err e))
          × (run (client_with (err (sentinel not_found))) [] [] true ≡ (ok tt, false)))
        ⊎ ((t : Unit {0}) × (◌≡◌ {A = Result (Unit {0})} (err (sentinel not_found)) (ok t))
            × ((◌≡◌ {A = Result Status} (ok running) (ok stopped))
                ⊎ (◌≡◌ {A = Result Status} (ok running) (ok created)))
            × (◌≡◌ {A = Done} (ok tt) (ok tt))
            × (run (client_with (err (sentinel not_found))) [] [] true ≡ (ok tt, false))))
run_success_example = run_success (client_with (err (sentinel not_found))) [] [] true deletes
