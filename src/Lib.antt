-- ===== src/Lib.antt =====
-- containerd-attributes-client: artifacts as container images.
--
-- The program. A manifest's layers are artifacts: files, or packed directories, that become the
-- directories of a container. `rcl run` fetches a manifest, asks image.Unpack to make a snapshot of
-- each layer on top of those below it, and starts a container on the last one. Unpack calls
-- ApplyArtifactWithOpts for each layer, which prepares a snapshot, lets an applier write the layer into
-- it, and commits it under the chain's identifier. The applier finds the writable directory of the
-- snapshot among its mount options and pushes the layer into a file store in that directory. The file
-- store gives a pushed blob a path by its title, refuses a path outside its working directory, verifies
-- the content, and unpacks archives; an error that comes while it writes a single file is lost.
--
-- The modules, and the code that they model:
--   Base, Content      Go's errors, strings, maps and integers; the OCI descriptor, whose annotations
--                      are a reference to a map that several descriptors may share
--   FilePath           the functions of path/filepath that aritfact/content/file calls
--   FileStore.Host     what the file store calls: operating system, tar and gzip, oras, the graph
--   FileStore.Store    aritfact/content/file/file.go: Store, New, NewWithFallbackLimit,
--                      NewWithFallbackStorage, resolveWritePath, absPath, nameExists
--   FileStore.Read     the same file: Fetch, Exists, Resolve, Tag, Predecessors, Close
--   FileStore.Push     the same file: Push, push, restoreDuplicates, saveFile, pushFile, pushDir,
--                      tempFile, ensureDir; internal/ioutil/io.go: CopyBuffer
--   FileStore.Archive  aritfact/content/file/utils.go: extractTarGzip, extractTarDirectory,
--                      ensureBasePath, ensureLinkPath, writeFile
--   FileStore.Add      aritfact/content/file/file.go: Add, descriptorFromDir, descriptorFromFile; and
--                      aritfact/content/file/utils.go: tarDirectory
--   Artifact           aritfact/artifact.go: ApplyArtifacts, ApplyArtifactsWithOpts, ApplyArtifact,
--                      ApplyArtifactWithOpts, applyArtifacts
--   Applier            aritfact/applier.go: Apply, apply, getOverlayPath, getAufsPath
--   Applier.Snapshots  aritfact/artifact.go and aritfact/applier.go together: a snapshotter whose mounts
--                      the applier fills
--   Image              aritfact/image.go: RootFS, IsUnpacked, Spec, Unpack, ConfigFromAttributes,
--                      ConfigWithAttributes, getManifest, getManifestPlatform, checkSnapshotterSupport,
--                      getSnapshotter, resolveSnapshotterName; its child Object models the constructors
--                      and the methods that pass a call on, and ContentStore the Fetch of contentStore
--   Options            aritfact/options/options.go
--   Commands.Run       cmd/rcl/commands/run.go: RunOptions, Complete, Run. Its child Container models
--                      NewContainer of run_unix.go and withMounts; its child Lifecycle gives a runner a
--                      log of its calls and the machine that the log is a path of
--   Commands.Client    the runner whose Fetch and NewContainer are those of this repository
--   Commands           cmd/rcl/commands: deleteContainer, DeleteOptions, buildLabels, parseMountFlag;
--                      GetResolver, NewFetchConfig, Fetch; the address of the socket in root.go
--   Tests              runs on small inputs, and hosts in memory
-- A module's children hold the theorems about it, and are named for what they are about.
--
-- Style. A function that changes state takes the state and gives it back beside its result, after an
-- error too. An error is a sentinel (errdefs, oras, os), a text, or a text round another error, and
-- errors.Is is the search for a sentinel in it. Texts that a message formats keep their parts and not
-- their quotes. A call that panics, or whose fuel ends, is told apart from one that returns (Run). A Go
-- map is an association list in which a later write shadows the earlier ones.
--
-- Parameters. Code that the sources call and do not hold is an argument: containerd's snapshotter,
-- applier, labels and leases (Artifact.Services.Backend, Image.Client.Services), the host of the
-- file store (FileStore.Host.Host), the writers of archives (FileStore.Add.Packer), mounting at a
-- temporary place (Applier.Apply.Outside), the setting of users (Options.Config.UserOpts), the
-- client of `rcl delete` (Commands.Delete.Client), and for `rcl run` containerd's client, tasks and
-- console (Commands.Run.Runner, Commands.Client.Shell), package oci and the image store
-- (Commands.Run.Container.Oci and Daemon) and the registry (Commands.Fetch.Registry). What a theorem
-- needs of them is a record of named hypotheses: a snapshot that was committed can be found, and a key
-- for unpacking is no chain of digests, since it has a space and digests have none (IsLawful,
-- IsDigest), an applier does not fail with the error of a committed snapshot (IsFresh), labels do not
-- remove snapshots (KeepsSnapshots), files keep their contents where no call writes (KeepsContents) and
-- are empty when new (CreatesEmpty), the process has a rooted working directory (HasRootedCwd), calls
-- inside a directory keep what the reader cares for outside it (KeptWithin), leases and labels do not
-- use up keys (KeepsKeys), an exit status comes (IsAnswered), and each option of package oci changes its
-- part of the spec (IsLawfulOci). Tests instantiates each of them.
--
-- Bounds. The loop of applyArtifacts draws a fresh key until one is not taken; it has fuel, which
-- NewContainer passes on, and Artifact.Settles gives the fuel that is enough from a bound on the keys
-- that are taken. The loop that removes empty environment entries has as much fuel as the list has
-- entries, and the loop of ensureBasePath has the length of its path and one more. All other loops
-- follow a list. Sizes and positions are natural numbers: the sources only count up.
--
-- Left out: locks, and calls that overlap; contexts and their ends; progress output and logging; the
-- sizes of buffers; the options of a new task, of which Run gives only those for input and output; the
-- cobra commands; and everything under vendor. The files that a walk visits are known when the walk begins.
pub mod Base
pub mod FilePath
pub mod Image
pub mod Commands
pub mod Content
pub mod Artifact
pub mod FileStore
pub mod Options
pub mod Tests
pub mod Applier
