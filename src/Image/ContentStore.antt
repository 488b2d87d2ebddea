-- ===== src/Image/ContentStore.antt =====
-- aritfact/image.go: `contentStore`, the content that `Apply` reads a layer from.
use containerd_attributes_cl.Base.Exec.{Exec, pure, ◌>>=◌}
use containerd_attributes_cl.Content.{Descriptor}
use containerd_attributes_cl.FileStore.Host.{Reader}

-- io.ReadCloser
pub record ReadCloser (Store : Type 0) : Type 0 where
  pub reader : Reader
  pub close : Exec Store (Unit {0})

-- io.NopCloser
abbrev pub nop_closer : {Store : Type 0} → Reader → ReadCloser Store
nop_closer r = record { reader = r; close = pure tt }

-- `Fetch`, over content.Store's ReaderAt and content.NewReader. Closing what it returns does not close
-- the content.ReaderAt.
unfoldable pub fetch :
    {Store ReaderAt : Type 0}
    → (Descriptor → Exec Store ReaderAt)
    → (ReaderAt → Reader)
    → Descriptor
    → Exec Store (ReadCloser Store)
fetch reader_at new_reader d = reader_at d >>= λ ra. pure (nop_closer (new_reader ra))
