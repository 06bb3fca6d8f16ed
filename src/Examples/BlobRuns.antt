-- ===== src/Examples/BlobRuns.antt =====
-- A blob of base64, with a character that JSON escapes.
use notip_data_consumer.Prelude.{◌≡◌, none, arith}
use notip_data_consumer.Prelude.Bytes.{lit}
use notip_data_consumer.Model.{OpaqueBlob, unmarshal_blob, marshal_blob}
use notip_data_consumer.Model.Blob.{unmarshal_blob-marshal_blob}

abbrev blob : OpaqueBlob
blob = record { value = lit "aXY+/<=" }

unmarshal_blob-marshal_blob_example :
    unmarshal_blob (marshal_blob blob) (record { value = lit "old" }) ≡ (blob, none)
unmarshal_blob-marshal_blob_example =
    unmarshal_blob-marshal_blob blob (record { value = lit "old" }) (ground arith)
