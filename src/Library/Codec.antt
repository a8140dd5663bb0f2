-- ===== src/Library/Codec.antt =====
-- What internal/tracedata/snappy.go calls: ptrace.ProtoMarshaler, ptrace.ProtoUnmarshaler and
-- github.com/golang/snappy. `none` is an error.
use atlassian_sampling_proce.Base.{◌≡◌, Option, some}
use atlassian_sampling_proce.Library.Pdata.{Bytes, Traces}

pub record Codec (A : Type 0) : Type 0 where
  pub marshal_traces : Traces A → Option Bytes
  pub unmarshal_traces : Bytes → Option (Traces A)
  pub encode : Bytes → Bytes
  pub decode : Bytes → Option Bytes

-- Both halves are lossless.
pub record CodecLaws {A : Type 0} (codec : Codec A) : Type 0 where
  pub unmarshal-marshal :
      (t : Traces A) (b : Bytes)
      → codec.marshal_traces t ≡ some b
      → codec.unmarshal_traces b ≡ some t
  pub decode-encode : (b : Bytes) → codec.decode (codec.encode b) ≡ some b
