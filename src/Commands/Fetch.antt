-- ===== src/Commands/Fetch.antt =====
-- cmd/rcl/commands/fetch.go: the resolver from the flags, and the options of a fetch; and the address
-- of the socket, from root.go. The resolver, the client and the progress output are parameters.
use containerd_attributes_cl.Base.{
  true, ◌≡◌, ◌≢◌, Text, lit, List, [], ◌∷◌, ◌++◌, map, Option, none, some, Bool, false, not,
  if◌then◌else◌, is_empty, ◌==◌, text_eq, Result, ok, err, Run, returns, spins,
}
use containerd_attributes_cl.Base.Exec.{Exec}
use containerd_attributes_cl.Base.Proc.{Proc}
use containerd_attributes_cl.Content.{Descriptor}
use containerd_attributes_cl.Commands.Run.{RunOptions}

-- `PersistentPreRun` of root.go: the address, from the environment variable CONTAINERD-SOCKET
unfoldable pub socket_address : Text → Text
socket_address socket = if is_empty socket then lit "/run/containerd/containerd.sock" else socket

-- docker's config.HostOptions: the scheme, and whether certificates are verified
pub record HostOptions : Type 0 where
  pub default_scheme : Text
  pub insecure_skip_verify : Bool

-- `GetResolver`, up to docker.NewResolver and config.ConfigureHosts
unfoldable pub get_resolver : {Resolver : Type 0} → (HostOptions → Resolver) → RunOptions → Resolver
get_resolver new_resolver o = new_resolver (record {
  default_scheme = if o.plain_http then lit "http" else [];
  insecure_skip_verify = o.skip_tls_verify;
})

-- containerd.RemoteOpt
pub data RemoteOpt (Resolver Matcher Jobs : Type 0) : Type 0 where
  with_pull_labels : List (Text × Text) → RemoteOpt Resolver Matcher Jobs
  with_resolver : Resolver → RemoteOpt Resolver Matcher Jobs
  with_image_handler :
      (Descriptor → Jobs → Result (List Descriptor) × Jobs) → RemoteOpt Resolver Matcher Jobs
  with_all_metadata : RemoteOpt Resolver Matcher Jobs
  with_platform_matcher : Matcher → RemoteOpt Resolver Matcher Jobs
  with_platform : Text → RemoteOpt Resolver Matcher Jobs

-- content.FetchConfig
pub record FetchConfig (Resolver Matcher Jobs : Type 0) : Type 0 where
  pub resolver : Resolver
  pub progress_output : Bool
  pub trace_http : Bool
  pub labels : List Text
  pub remote_opts : List (RemoteOpt Resolver Matcher Jobs)
  pub all_metadata : Bool
  pub platform_matcher : Option Matcher
  pub platforms : List Text

-- The client, and what is under way.
pub record Registry (State : Type 0) : Type 1 where
  pub Resolver : Type 0
  pub Matcher : Type 0
  pub Jobs : Type 0
  pub Image : Type 0
  pub new_resolver : HostOptions → Resolver
  -- content.Jobs.Add
  pub add_job : Descriptor → Jobs → Jobs
  -- commands.LabelArgs
  pub label_args : List Text → List (Text × Text)
  -- httptrace.WithClientTrace on the context of the call
  pub trace : State → State
  -- context.WithCancel and the goroutine, with the output that it is to write to, if any; the cancel
  -- function; and whether the goroutine closes its channel after that
  pub start_progress : Bool → State → State
  pub stop_progress : State → State
  pub progress_closes : State → Bool
  -- client.Fetch
  pub client_fetch : Text → List (RemoteOpt Resolver Matcher Jobs) → Exec State Image

-- images.MediaTypeDockerSchema1Manifest
pub schema1_manifest : Text
unfolding lit
schema1_manifest = lit "application/vnd.docker.distribution.manifest.v1+prettyjws"

module _ {State : Type 0} (G : Registry State) where
  open G use {Resolver, Matcher, Jobs, Image}

  abbrev Opt : Type 0
  Opt = RemoteOpt Resolver Matcher Jobs

  abbrev Config : Type 0
  Config = FetchConfig Resolver Matcher Jobs

  -- `NewFetchConfig`
  unfoldable pub new_fetch_config : RunOptions → Config
  unfolding get_resolver
  new_fetch_config o = record {
    resolver = get_resolver G.new_resolver o;
    progress_output = not o.debug;
    trace_http = false;
    labels = [];
    remote_opts = [];
    all_metadata = false;
    platform_matcher = none;
    platforms = [];
  }

  -- The handler: descriptors are jobs, but for the manifests of schema 1, and have no children here.
  pub handle : Descriptor → Jobs → Result (List Descriptor) × Jobs
  unfolding schema1_manifest
  handle d jobs = (ok [], if d.media_type == schema1_manifest then jobs else G.add_job d jobs)

  abbrev platform_opts : Option Matcher → List Text → List Opt
  platform_opts (some m) platforms = with_platform_matcher m ∷ []
  platform_opts none platforms = map with_platform platforms

  -- The options of client.Fetch
  pub fetch_opts : Config → List Opt
  unfolding handle
  fetch_opts config =
      (with_pull_labels (G.label_args config.labels)
        ∷ with_resolver config.resolver
        ∷ with_image_handler handle
        ∷ [])
      ++ (config.remote_opts
          ++ ((if config.all_metadata then with_all_metadata ∷ [] else [])
              ++ platform_opts config.platform_matcher config.platforms))

  abbrev pub awaited : Result Image → State → Run Image × State
  awaited (err e) s = (returns (err e), s)
  awaited (ok image) s = if G.progress_closes s then (returns (ok image), s) else (spins, s)

  -- `Fetch`
  unfoldable pub fetch : Text → Config → Proc State Image
  unfolding fetch_opts
  fetch ref config s =
      let traced = if config.trace_http then G.trace s else s in
      let (fetched, t) =
        G.client_fetch ref (fetch_opts config) (G.start_progress config.progress_output traced) in
      awaited fetched (G.stop_progress t)

  awaited-ne-spins :
      (r : Result Image) (s : State)
      → ((t : State) → G.progress_closes t ≡ true)
      → (awaited r s).0 ≢ spins
  awaited-ne-spins (ok image) s closes = rw (closes s) (λ p. absurd (cc))
  awaited-ne-spins (err e) s closes = λ p. absurd (cc)

  -- `Fetch` ends, if the goroutine that it waits for closes its channel.
  pub fetch-ne-spins :
      (ref : Text) (config : Config) (s : State)
      → ((t : State) → G.progress_closes t ≡ true)
      → (fetch ref config s).0 ≢ spins
  unfolding fetch
  fetch-ne-spins ref config s closes = awaited-ne-spins _ _ closes
