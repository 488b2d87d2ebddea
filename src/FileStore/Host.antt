-- ===== src/FileStore/Host.antt =====
-- What aritfact/content/file calls: the operating system, gzip and tar decoding, the verification of
-- oras's content package, the fallback storage, and the graph of collection nodes.
use containerd_attributes_cl.Base.{Text, ℕ, ℤ, List, Bool, Option, Error, Result, Done}
use containerd_attributes_cl.Content.{Descriptor, Heap}

-- What a reader yields before it ends, and the error that it ends with if that is not EOF.
pub record Reader : Type 0 where
  pub bytes : Text
  pub failure : Option Error

-- os.FileInfo, as far as it is read
pub record FileInfo : Type 0 where
  pub is_dir : Bool
  pub size : ℕ

-- uorspec.File
pub record FileAttributes : Type 0 where
  pub permissions : ℕ
  pub uid : ℤ
  pub gid : ℤ

pub data TypeFlag : Type 0 where
  regular directory hard_link symbolic_link other : TypeFlag

-- tar.Header with the reader of the entry's content
pub record Header : Type 0 where
  pub name : Text
  pub type_flag : TypeFlag
  pub mode : ℕ
  pub link_name : Text
  pub content : Reader

-- A gzip file: whether its header is well formed, the entries of the tar file in it and the error at
-- its end (`none` is EOF), the bytes that were read on the way, and what closing it returns.
pub record Archive : Type 0 where
  pub opening : Done
  pub headers : List Header
  pub ending : Option Error
  pub payload : Text
  pub closing : Done

pub record Host : Type 1 where
  pub World : Type 0
  -- err.Error()
  pub error_text : Error → Text
  pub getwd : World → Result Text
  pub stat : World → Text → Result FileInfo
  -- os.Lstat: whether a symbolic link stands at the path
  pub lstat : World → Text → Result Bool
  -- os.Open, and what reading yields
  pub open_read : World → Text → Result Text
  pub mkdir_all : Text → ℕ → World → Done × World
  -- os.OpenFile to write: created if it is not there, and with its second argument truncated
  pub open_file : Text → Bool → ℕ → World → Done × World
  -- writes at the start of the file that has been opened
  pub write : Text → Text → World → Done × World
  pub close : Text → World → Done × World
  pub chown : Text → ℤ → ℤ → World → Done × World
  pub create_temp : World → Result Text × World
  pub remove : Text → World → Done × World
  pub link : Text → Text → World → Done × World
  pub symlink : Text → Text → World → Done × World
  -- os.Chtimes to the times of a header; its error is dropped
  pub chtimes : Text → Header → World → World
  -- gzip.NewReader and tar.NewReader
  pub unpack : Text → Archive
  -- digest.Parse, and then whether the bytes have the digest
  pub parse_digest : Text → Option (Text → Bool)
  -- content.NewVerifyReader: what it reads on, and the verdict of Verify at the end
  pub verify_reader : Descriptor → Reader → Reader
  pub verify : Descriptor → Reader → Done
  -- orascontent.Storage
  pub Fallback : Type 0
  pub fallback_fetch : Fallback → Descriptor → Result Text
  pub fallback_exists : Fallback → Descriptor → Result Bool
  pub fallback_push : Descriptor → Reader → Fallback → Done × Fallback
  -- orascontent.FetchAll over a Fetch of the store
  pub fetch_all : (Descriptor → Result Text) → Descriptor → Result Text
  -- orascontent.Successors over a Fetch of the store; the descriptors it decodes are new
  pub successors : (Descriptor → Result Text) → Descriptor → Heap → Result (List Descriptor) × Heap
  -- *collection.Collection
  pub Graph : Type 0
  -- loader.AddManifest
  pub add_manifest : (Descriptor → Result Text) → Heap → Descriptor → Graph → Done × Graph
  -- graph.To(id), of whose nodes only those of type *v2.Node have a descriptor
  pub graph_to : Graph → Text → List (Option Descriptor)
  -- v2.NewNode, and the file information among the properties
  pub file_info : Heap → Descriptor → Result (Option FileAttributes)
