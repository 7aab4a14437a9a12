-- ===== src/Kv/Command/RoundTrip.antt =====
-- What the server reads in a command that the client has built.
use my_raft.Base.{◌≡◌, refl, ap, sym, ◌∙◌, List, [], ◌∷◌, ◌++◌, append_assoc, Bytes}
use my_raft.Base.Split.{split, Avoids, Avoids-append, split-append, split-one}
use my_raft.Kv.Command.{
  op_separator, key_value_separator, two_parts, parse_cmd, split_put_append_cmd, get_op, get_cmd,
  put_append_cmd,
}

-- A text without the first byte of `:::`, and without that of `<<>>`.
abbrev pub IsPlain : Bytes → Type 0
IsPlain s = Avoids b':' s × Avoids b'<' s

-- The first part is the op; the second begins behind the separator.
parse_cmd-append :
    (op rest : Bytes) (part : Bytes) (parts : List Bytes)
    → Avoids b':' op
    → split rest op_separator ≡ part ∷ parts
    → parse_cmd (op ++ (op_separator ++ rest)) ≡ (op, part)
unfolding parse_cmd
parse_cmd-append op rest part parts o e =
    ap two_parts (split-append b':' (b':' ∷ b':' ∷ []) op rest o ∙ ap (◌∷◌ op) e)

-- A get is read as it was meant.
pub parse_cmd-get_cmd : (key : Bytes) → Avoids b':' key → parse_cmd (get_cmd key) ≡ (get_op, key)
unfolding get_cmd
parse_cmd-get_cmd key p =
    parse_cmd-append get_op key key [] (refl, (refl, (refl, tt)))
      (split-one b':' (b':' ∷ b':' ∷ []) key p)

-- A key and a value that stand together are read back.
pub split_put_append_cmd-plain :
    (key value : Bytes)
    → Avoids b'<' key
    → Avoids b'<' value
    → split_put_append_cmd (key ++ (key_value_separator ++ value)) ≡ (key, value)
unfolding split_put_append_cmd
split_put_append_cmd-plain key value k v = ap two_parts (
    split-append b'<' (b'<' ∷ b'>' ∷ b'>' ∷ []) key value k
    ∙ ap (◌∷◌ key) (split-one b'<' (b'<' ∷ b'>' ∷ b'>' ∷ []) value v))

module _ (op key value : Bytes) (o : Avoids b':' op) (k : IsPlain key) where
  body-Avoids : Avoids b':' value → Avoids b':' (key ++ (key_value_separator ++ value))
  body-Avoids v =
      Avoids-append b':' key (key_value_separator ++ value) k.0 (refl, (refl, (refl, (refl, v))))

  -- A put or an append whose op, key and value have no byte of `:::`, and whose key has none of `<<>>`, is
  -- read as the op, with the key and the value behind it.
  pub parse_cmd-put_append_cmd :
      Avoids b':' value
      → parse_cmd (put_append_cmd op key value) ≡ (op, key ++ (key_value_separator ++ value))
  unfolding put_append_cmd
  parse_cmd-put_append_cmd v =
      parse_cmd-append op (key ++ (key_value_separator ++ value)) _ [] o
        (split-one b':' (b':' ∷ b':' ∷ []) _ (body-Avoids v))

  -- What stands behind the first `:::` in a value is lost, where op, key and the text before it have no
  -- byte of `:::`.
  pub parse_cmd-cut :
      (more : Bytes)
      → Avoids b':' value
      → parse_cmd (put_append_cmd op key (value ++ (op_separator ++ more)))
        ≡ (op, key ++ (key_value_separator ++ value))
  unfolding put_append_cmd
  parse_cmd-cut more v = parse_cmd-append op _ _ (split more op_separator) o (
      ap (λ s. split s op_separator) regroup
      ∙ split-append b':' (b':' ∷ b':' ∷ []) (key ++ (key_value_separator ++ value)) more
          (body-Avoids v))
    where
      regroup :
          key ++ (key_value_separator ++ (value ++ (op_separator ++ more)))
          ≡ (key ++ (key_value_separator ++ value)) ++ (op_separator ++ more)
      regroup = sym (append_assoc key (key_value_separator ++ value) (op_separator ++ more))
