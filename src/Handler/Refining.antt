-- ===== src/Handler/Refining.antt =====
-- The calls of a cursor against the tape.
use mariadb_scylla_storage_e.Prelude.{
  ℕ, ◌+◌, ◌-◌, ◌%◌, ◌<◌, ◌^◌, true, Option, none, some, List, [], ◌∷◌, ◌++◌, append_assoc, ◌≡◌, ◌∙◌,
  refl, ap, arith, get_elem?, length, length-append,
}
use mariadb_scylla_storage_e.Prelude.Int.{ℤ}
use mariadb_scylla_storage_e.Prelude.Text.{Bytes}
use mariadb_scylla_storage_e.Server.{Server, IsLawful}
use mariadb_scylla_storage_e.Connection.Driver.{Driver}
use mariadb_scylla_storage_e.Handler.State.{Globals, State}
use mariadb_scylla_storage_e.Handler.Record.{store_result_to_record}
use mariadb_scylla_storage_e.Handler.Scan as Scan
use mariadb_scylla_storage_e.Handler.Cursor.{rnd_next_lem, store_row_lem}
use mariadb_scylla_storage_e.Handler.Calls.{Call, run}
use mariadb_scylla_storage_e.Handler.Tape.{
  Tape, all_of, rewound, read_next, read_at, last_of, browses, play, Shows, Implements,
}

module _ {ℓ} {A : Type ℓ} where
  get_elem?-middle :
      (xs : List A) (y : A) (ys : List A) → get_elem? (xs ++ y ∷ ys) (length xs) ≡ some y
  get_elem?-middle [] y ys = refl
  get_elem?-middle (x ∷ xs) y ys = get_elem?-middle xs y ys

  get_elem?-end : (xs : List A) → get_elem? (xs ++ []) (length xs) ≡ none
  get_elem?-end [] = refl
  get_elem?-end (x ∷ xs) = get_elem?-end xs

  length-snoc : (xs : List A) (y : A) → length (xs ++ y ∷ []) ≡ length xs + 1
  length-snoc xs y = length-append xs (y ∷ [])

last_of_lem :
    (rows : List (List Bytes))
    → length rows < 2 ^ 64
    → (length rows + 2 ^ 64 - 1) % 2 ^ 64 ≡ last_of rows
last_of_lem [] h = omega arith
last_of_lem (r ∷ rows) h = omega arith

module _ (S : Server) (law : IsLawful S) (D : Driver) where
  rnd_next-Implements :
      (st : State S D) (t : Tape) (buf : ℤ)
      → Shows S law D t st
      → Implements S law D st (read_next buf t.noted t.read t.unread) (Scan.rnd_next S D st buf)
  rnd_next-Implements st t buf s = go t.unread refl
    where
      go :
          (unread : List (List Bytes))
          → t.unread ≡ unread
          → Implements S law D st (read_next buf t.noted t.read unread) (Scan.rnd_next S D st buf)
      go [] e = (
        st,
        record { rows = s.rows ∙ rw e; place = s.place; note = s.note; short = rw e at (s.short) },
        rnd_next_lem S law D st buf ∙ rw (s.rows, s.place, e, get_elem?-end t.read),
        refl,
      )
      go (r ∷ unread) e = (
        record st {
          handler = record (st.handler) { current_position = st.handler.current_position + 1 };
        },
        record {
          rows = s.rows ∙ rw (e, append_assoc t.read (r ∷ []) unread);
          place = rw (s.place, length-snoc t.read r);
          note = s.note;
          short = rw (append_assoc t.read (r ∷ []) unread, ← e) (s.short);
        },
        rnd_next_lem S law D st buf ∙ rw (s.rows, s.place, e, get_elem?-middle t.read r unread),
      )

  read_at-Implements :
      (st : State S D) (t : Tape) (buf : ℤ) (pos : ℕ)
      → Shows S law D t st
      → Implements S law D st
          (read_at buf (get_elem? (all_of t) pos), t)
          (Scan.rnd_pos S D st buf pos)
  unfolding Scan.rnd_pos store_result_to_record
  read_at-Implements st t buf pos s = go (get_elem? (all_of t) pos) refl
    where
      go :
          (r : Option (List Bytes))
          → get_elem? (all_of t) pos ≡ r
          → Implements S law D st (read_at buf r, t) (Scan.rnd_pos S D st buf pos)
      go none e =
          (st, s, rw (ap (λ rows. get_elem? rows pos) s.rows ∙ e, store_result_to_record), refl)
      go (some r) e = (
        st,
        s,
        rw (ap (λ rows. get_elem? rows pos) s.rows ∙ e, store_result_to_record)
            (store_row_lem S law D st buf r),
      )

  Shows-rewound :
      (st : State S D) (t : Tape)
      → Shows S law D t st
      → Shows S law D
          (rewound t)
          (record st { handler = record (st.handler) { current_position = 0 } })
  Shows-rewound st t s = record { rows = s.rows; place = refl; note = s.note; short = s.short }

  -- Every call of a cursor refines what it does to the tape of rows: the next row is the first of the
  -- unread ones, and the end is reported when there is none; the first row is the first of all; a
  -- row is found again under its number; `position` notes the number of the row that was read last;
  -- the end of a scan rewinds; there is no way back. The handler again stands for the tape. There
  -- are fewer than 2^64 rows.
  pub run-play :
      (g : Globals) (st : State S D) (t : Tape) (c : Call S)
      → Shows S law D t st
      → browses c ≡ true
      → Implements S law D st (play t c) (run S D g st c)
  unfolding run Scan.index_next Scan.index_prev Scan.index_first Scan.index_last Scan.position
      Scan.rnd_end Scan.index_init Scan.index_end
  run-play g st t (Call.rnd_next buf) s h = rnd_next-Implements st t buf s
  run-play g st t (Call.index_next buf) s h = rnd_next-Implements st t buf s
  run-play g st t (Call.index_first buf) s h =
      rnd_next-Implements _ (rewound t) buf (Shows-rewound st t s)
  run-play g st t (Call.index_prev buf) s h = (st, s, refl, refl)
  run-play g st t (Call.index_last buf) s h = (st, s, refl, refl)
  run-play g st t (Call.rnd_pos buf pos) s h = read_at-Implements st t buf pos s
  run-play g st t Call.position s h = (
    Scan.position S D st,
    record {
      rows = s.rows;
      place = s.place;
      note =
          rw s.place (last_of_lem t.read (omega (arith, length-append t.read t.unread, s.short)));
      short = s.short;
    },
    refl,
    refl,
  )
  run-play g st t Call.rnd_end s h = (
    (Scan.rnd_end S D st).1,
    record { rows = s.rows; place = refl; note = s.note; short = s.short },
    refl,
    refl,
  )
  run-play g st t (Call.index_init idx) s h = (
    (Scan.index_init S D st idx).1,
    record { rows = s.rows; place = s.place; note = s.note; short = s.short },
    refl,
    refl,
  )
  run-play g st t Call.index_end s h = (
    (Scan.index_end S D st).1,
    record { rows = s.rows; place = s.place; note = s.note; short = s.short },
    refl,
    refl,
  )
  run-play g st t _ s h = cc
