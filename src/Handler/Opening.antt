-- ===== src/Handler/Opening.antt =====
-- `open` on a connected handler, and its shift of the first field past the null bytes.
use mariadb_scylla_storage_e.Prelude.{◌<◌, true, false, List, ◌∷◌, none, ◌≡◌, ◌∙◌, ap}
use mariadb_scylla_storage_e.Prelude.Text.{Bytes}
use mariadb_scylla_storage_e.Numerals.{ok, ◌>>=◌}
use mariadb_scylla_storage_e.Prelude.Int.{pos, ◌+ℤ◌}
use mariadb_scylla_storage_e.Server.{Server, IsLawful}
use mariadb_scylla_storage_e.Connection.Driver.{Driver}
use mariadb_scylla_storage_e.Handler.State.{Globals, success, State}
use mariadb_scylla_storage_e.Handler.Comment.{parse_table_comment}
use mariadb_scylla_storage_e.Handler.Cql.{is_online, connect_to_scylla, on_success}
use mariadb_scylla_storage_e.Handler.Storing.{Holds}
use mariadb_scylla_storage_e.Handler.Interference.{connect_to_scylla_online}
use mariadb_scylla_storage_e.Handler.Tables.{
  adjust_first, adjusted, open_table, with_keyspace, with_table_name,
}
use mariadb_scylla_storage_e.Handler.Shifting.{adjust_first-fits}

module _ (S : Server) (law : IsLawful S) (D : Driver) (g : Globals) where
  -- The state that `open` begins with when the table has no comment.
  abbrev pub named : State S D → Bytes → State S D
  named st name = record st { handler = with_keyspace g (with_table_name st.handler name) }

  open_table_online :
      (st : State S D) (name : Bytes)
      → st.table.comment ≡ none
      → is_online S D st.handler.conn ≡ true
      → open_table S D g st name ≡ ok (adjusted S D g (named st name))
  unfolding open_table parse_table_comment on_success
  open_table_online st name plain online =
      ap
        (λ c. parse_table_comment st.handler c >>= λ h. ok (
          on_success S D
            (connect_to_scylla S D
              (record st { handler = with_keyspace g (with_table_name h name) }))
            (adjusted S D g)))
        plain
      ∙ ap (λ r. ok (on_success S D r (adjusted S D g)))
          (connect_to_scylla_online S law D (named st name) online)

  -- A connected handler opens a table without a comment, in which there are null bytes, the first
  -- field cannot be null and stands over the null bytes, at the start of `record[0]`, and the second
  -- field stands exactly the length of the first and the null bytes behind that. `open` succeeds and
  -- moves the first field behind the null bytes, where it ends at the second field; the other fields
  -- stay where they are. When the table is opened once more, no field moves.
  pub open_table-fits :
      (st : State S D) (name : Bytes) (first second : S.Field) (fields : List S.Field)
      → st.table.comment ≡ none
      → is_online S D st.handler.conn ≡ true
      → st.table.field ≡ first ∷ second ∷ fields
      → 0 < st.table.null_bytes
      → S.has_null_ptr first ≡ false
      → S.ptr first ≡ st.table.record0
      → S.ptr second ≡ st.table.record0 +ℤ pos (S.pack_length first) +ℤ pos st.table.null_bytes
      → (let moved = S.move_field first (st.table.record0 +ℤ pos st.table.null_bytes) in
          let opened : State S D = record (named st name) {
            table = record (st.table) { field = moved ∷ second ∷ fields };
          } in
          (open_table S D g st name ≡ ok (success, opened))
          × (S.ptr moved +ℤ pos (S.pack_length moved) ≡ S.ptr second)
          × Holds (λ st'. st'.table ≡ opened.table) (open_table S D g opened name))
  unfolding adjusted
  open_table-fits st name first second fields plain online form h present e f =
      let t = st.table in
      let (once, ends, again) =
        adjust_first-fits S law D g t.record0 t.null_bytes first second fields h present e f in
      let moved = S.move_field first (t.record0 +ℤ pos t.null_bytes) in
      let opened : State S D = record (named st name) {
        table = record t { field = moved ∷ second ∷ fields };
      } in
      (
        open_table_online st name plain online
            ∙ ap (λ fs. ok (success, record (named st name) { table = record t { field = fs } }))
                (ap (adjust_first S D g t.record0 t.null_bytes) form ∙ once),
        ends,
        rw (open_table_online opened name plain online) (ap (λ fs. record t { field = fs }) again),
      )
