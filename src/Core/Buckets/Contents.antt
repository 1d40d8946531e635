-- ===== src/Core/Buckets/Contents.antt =====
-- Where the bytes of an entry stand in the bucket files, which the server writes and the clients read.
use clipboard_history.Prelude.{ℕ, ◌*◌, List, [], get_or}
use clipboard_history.Prelude.Files.{Bytes, read_at}
use clipboard_history.Core.InitializedEntry
use clipboard_history.Core.InitializedEntry.{InitializedEntry}
use clipboard_history.Core.Buckets.{size_to_bucket, bucket_to_length}

abbrev pub bucket_of : InitializedEntry → ℕ
bucket_of e = size_to_bucket (InitializedEntry.size e)

-- The bytes of an entry's slot.
abbrev pub slot_bytes : List Bytes → InitializedEntry → Bytes
slot_bytes files e =
    read_at (get_or files (bucket_of e) [])
      (bucket_to_length (bucket_of e) * InitializedEntry.index e) (InitializedEntry.size e)
