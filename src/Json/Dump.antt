-- ===== src/Json/Dump.antt =====
-- src/json.cpp: `dump_to` and `dump`.
use haiku_mgmt_agent.Prelude.{true, false, ◌∷◌, ◌++◌}
use haiku_mgmt_agent.Prelude.Text.{Bytes, codes}
use haiku_mgmt_agent.Json.Value.{
  Doubles, Value, Items, Fields, null, boolean, num, str, arr, obj, nil, cons, end, field,
}
use haiku_mgmt_agent.Json.Strings.{escape}

module _ (fp : Doubles) where
  unfoldable mutual
    pub dump : Value → Bytes
    dump null = codes "null"
    dump (boolean true) = codes "true"
    dump (boolean false) = codes "false"
    dump (num d integral) = fp.print d integral
    dump (str s) = escape s
    dump (arr nil) = codes "[]"
    dump (arr (cons x xs)) = b'[' ∷ (dump x ++ dump_items xs)
    dump (obj end) = codes "{}"
    dump (obj (field k v fs)) = b'{' ∷ (escape k ++ (b':' ∷ (dump v ++ dump_fields fs)))

    -- The elements behind the first, and the closing bracket.
    pub dump_items : Items → Bytes
    dump_items nil = codes "]"
    dump_items (cons x xs) = b',' ∷ (dump x ++ dump_items xs)

    -- The members behind the first, and the closing brace.
    pub dump_fields : Fields → Bytes
    dump_fields end = codes "}"
    dump_fields (field k v fs) = b',' ∷ (escape k ++ (b':' ∷ (dump v ++ dump_fields fs)))
