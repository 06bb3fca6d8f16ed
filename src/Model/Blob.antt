-- ===== src/Model/Blob.antt =====
-- The JSON of a blob, written and read.
use notip_data_consumer.Prelude.{◌≡◌, ap, none}
use notip_data_consumer.Json.Read.Quoted.{IsAscii, unmarshal_string-marshal_string}
use notip_data_consumer.Model.{OpaqueBlob, store_blob, unmarshal_blob, marshal_blob}

-- If the value of a blob is ASCII text, as base64 is, then `UnmarshalJSON` of what `MarshalJSON` writes
-- gives the blob, whatever was in its place before, without an error.
pub unmarshal_blob-marshal_blob :
    (o before : OpaqueBlob) → IsAscii o.value → unmarshal_blob (marshal_blob o) before ≡ (o, none)
unfolding unmarshal_blob marshal_blob
unmarshal_blob-marshal_blob o before h =
    ap (store_blob before) (unmarshal_string-marshal_string o.value h)
