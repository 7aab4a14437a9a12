-- ===== src/Kv/Command.antt =====
-- The texts of the commands: kvraft/common.go, `parseCmd` and `splitPutAppendCmd` of
-- kvraft/server.go, and the commands that raftclient/client/client.go builds.
pub mod RoundTrip
use my_raft.Base.{ℕ, List, [], ◌∷◌, ◌++◌, Bytes}
use my_raft.Base.Split.{split}

abbrev pub op_separator : Bytes
op_separator = b':' ∷ b':' ∷ b':' ∷ []

abbrev pub key_value_separator : Bytes
key_value_separator = b'<' ∷ b'<' ∷ b'>' ∷ b'>' ∷ []

abbrev pub append_op : Bytes
append_op = b'A' ∷ b'p' ∷ b'p' ∷ b'e' ∷ b'n' ∷ b'd' ∷ []

abbrev pub put_op : Bytes
put_op = b'P' ∷ b'u' ∷ b't' ∷ []

abbrev pub get_op : Bytes
get_op = b'G' ∷ b'e' ∷ b't' ∷ []

-- The first two parts, or two empty texts where there is one part only.
abbrev pub two_parts : List Bytes → Bytes × Bytes
two_parts (a ∷ b ∷ rest) = (a, b)
two_parts _ = ([], [])

unfoldable pub parse_cmd : Bytes → Bytes × Bytes
parse_cmd cmd = two_parts (split cmd op_separator)

unfoldable pub split_put_append_cmd : Bytes → Bytes × Bytes
split_put_append_cmd s = two_parts (split s key_value_separator)

-- What the client sends.
unfoldable pub get_cmd : Bytes → Bytes
get_cmd key = get_op ++ (op_separator ++ key)

unfoldable pub put_append_cmd : Bytes → Bytes → Bytes → Bytes
put_append_cmd op key value = op ++ (op_separator ++ (key ++ (key_value_separator ++ value)))
