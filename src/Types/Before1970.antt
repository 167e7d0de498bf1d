-- ===== src/Types/Before1970.antt =====
-- A date and time before 1970: its milliseconds wrap around to a number that CQL does not take.
use mariadb_scylla_storage_e.Prelude.{
  ℕ, ◌-◌, ◌<◌, ◌^◌, true, false, none, [], ◌∷◌, ◌≡◌, ◌≢◌, ◌∙◌, refl, ap, arith, append-nil,
}
use mariadb_scylla_storage_e.Prelude.Int.{ℤ, pos, negsuc, to_word}
use mariadb_scylla_storage_e.Prelude.Text.{Bytes, is_empty}
use mariadb_scylla_storage_e.Numerals.{ok, throw, out_of_range, show_ℕ, to_string, fits, stoll}
use mariadb_scylla_storage_e.Numerals.RoundTrip.{show_ℕ-IsDigit, integer_prefix-to_string}
use mariadb_scylla_storage_e.Server.{Server, IsLawful, FieldType, own}
use mariadb_scylla_storage_e.Types.Mapping.{mariadb_to_cql_type}
use mariadb_scylla_storage_e.Types.Value.{millis, get_cql_value}
use mariadb_scylla_storage_e.Types.Store.{reads_as_null, store_as, store_field_value}
use mariadb_scylla_storage_e.Types.Cql.{read_value}
use mariadb_scylla_storage_e.Types.Timestamps.{is_timestamp}
use mariadb_scylla_storage_e.Types.Typing.{
  is_typed, value_of, ranged, read_value-get_cql_value, to_string-IsNotNull,
}
use mariadb_scylla_storage_e.Types.Zones.{get_cql_value-millis}

wrapped : (n : ℕ) → n < 2 ^ 63 → to_word 64 (negsuc n) ≡ 2 ^ 64 - 1 - n
wrapped n h = ground arith

large_unfit : (n : ℕ) → n < 2 ^ 63 → fits 64 (pos (2 ^ 64 - 1 - n)) ≡ false
large_unfit n h = ground arith

-- `stoll` throws on a number of 64 bits that is not signed.
stoll-unfit : (z : ℤ) → fits 64 z ≡ false → stoll (to_string z) ≡ throw out_of_range
unfolding stoll
stoll-unfit z h = rw (← append-nil (to_string z)) (rw (integer_prefix-to_string z [] tt, h))

is_empty-false : (s : Bytes) → s ≢ [] → is_empty s ≡ false
is_empty-false [] ne = absurd (ne refl)
is_empty-false (c ∷ s) ne = refl

number_not_null : (n : ℕ) → reads_as_null (to_string (pos n)) ≡ false
unfolding to_string
number_not_null n = rw (to_string-IsNotNull (pos n), is_empty-false (show_ℕ n) (show_ℕ-IsDigit n).1)

module _ (S : Server) (m : S.Memory) (field : S.Field) where
  store_as-unread :
      (m' : S.Memory) (ty : FieldType) (s : Bytes)
      → is_timestamp ty ≡ true
      → stoll s ≡ throw out_of_range
      → store_as S m' field ty s ≡ ok (S.store_str m' field own s)
  unfolding store_as
  store_as-unread m' FieldType.datetime s t e = ground arith
  store_as-unread m' FieldType.timestamp s t e = ground arith
  store_as-unread m' FieldType.timestamp2 s t e = ground arith
  store_as-unread m' _ s t e = cc

  unranged :
      (law : IsLawful S) (n : ℕ)
      → millis S m field ≡ negsuc n
      → n < 2 ^ 63
      → ranged 64 (pos (to_word 64 (millis S m field))) ≡ none
  unranged law n e h =
      ap (λ z. ranged 64 (pos (to_word 64 z))) e
      ∙ (ap (λ w. ranged 64 (pos w)) (wrapped n h) ∙ rw (large_unfit n h))

  value_of-before :
      (law : IsLawful S) (ty : FieldType) (n : ℕ)
      → is_timestamp ty ≡ true
      → millis S m field ≡ negsuc n
      → n < 2 ^ 63
      → value_of S law m field ty ≡ none
  value_of-before law FieldType.datetime n t e h = unranged law n e h
  value_of-before law FieldType.timestamp n t e h = unranged law n e h
  value_of-before law FieldType.timestamp2 n t e h = unranged law n e h
  value_of-before law _ n t e h = cc

  is_timestamp-is_typed : (ty : FieldType) → is_timestamp ty ≡ true → is_typed ty ≡ true
  is_timestamp-is_typed FieldType.datetime t = refl
  is_timestamp-is_typed FieldType.timestamp t = refl
  is_timestamp-is_typed FieldType.timestamp2 t = refl
  is_timestamp-is_typed _ t = cc

  -- A date and time that `mktime` puts before 1970, by at most 2^63 milliseconds, is written as 2^64
  -- less the milliseconds before 1970. CQL reads no value of the column's type in that, and stored
  -- back into the field it is stored as a text.
  pub get_cql_value-before_1970 :
      (law : IsLawful S) (n : ℕ)
      → is_timestamp (S.field_type field) ≡ true
      → S.is_null m field ≡ false
      → millis S m field ≡ negsuc n
      → n < 2 ^ 63
      → (get_cql_value S m field ≡ to_string (pos (2 ^ 64 - 1 - n)))
        × (read_value (mariadb_to_cql_type S field) (get_cql_value S m field) ≡ none)
        × (store_field_value S m field (get_cql_value S m field)
            ≡ ok (S.store_str (S.set_notnull m field) field own (to_string (pos (2 ^ 64 - 1 - n)))))
  unfolding store_field_value
  get_cql_value-before_1970 law n t present e h =
      let literal =
        get_cql_value-millis S m field (negsuc n) t present e
        ∙ ap (λ w. to_string (pos w)) (wrapped n h) in
      let lit = to_string (pos (2 ^ 64 - 1 - n)) in
      (
        literal,
        read_value-get_cql_value S law m field (is_timestamp-is_typed (S.field_type field) t)
            ∙ rw present (value_of-before law (S.field_type field) n t e h),
        ap (store_field_value S m field) literal
            ∙ rw (
              number_not_null (2 ^ 64 - 1 - n),
              store_as-unread (S.set_notnull m field) (S.field_type field) lit t
                  (stoll-unfit (pos (2 ^ 64 - 1 - n)) (large_unfit n h)),
            ),
      )
