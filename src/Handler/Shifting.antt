-- ===== src/Handler/Shifting.antt =====
-- `adjust_first`: the shift of the first field past the null bytes.
use mariadb_scylla_storage_e.Prelude.{
  ◌+◌, ℕ, not, ◌&&◌, ◌<◌, Bool, true, false, List, [], ◌∷◌, ◌≡◌, ◌∙◌, refl, ap, sym, arith, ltb,
  Bool-cases, inl, inr, if◌then◌else◌,
}
use mariadb_scylla_storage_e.Prelude.Int.{negsuc, ℤ, pos, ◌+ℤ◌, ◌-ℤ◌, ◌==ℤ◌}
use mariadb_scylla_storage_e.Server.{Server, IsLawful}
use mariadb_scylla_storage_e.Connection.Driver.{Driver}
use mariadb_scylla_storage_e.Handler.State.{Globals}
use mariadb_scylla_storage_e.Handler.Tables.{adjust_first}

-- A field that stood at the base and was shifted by some bytes does not stand at the base.
shifted_off :
    (p base : ℤ) (n : ℕ)
    → 0 < n
    → (p -ℤ base ==ℤ pos 0) ≡ true
    → (p +ℤ pos n -ℤ base ==ℤ pos 0) ≡ false
unfolding ◌+ℤ◌ ◌-ℤ◌
shifted_off p base n h e = ground arith

guards : (a b c d : Bool) → (a && (b && c && d)) ≡ true → (a ≡ true) × (c ≡ true)
guards true true true true h = (refl, refl)
guards true true true false h = cc
guards true true false d h = cc
guards true false c d h = cc
guards false b c d h = cc

guard_fails : (a b c d : Bool) → c ≡ false → (a && (b && c && d)) ≡ false
guard_fails true true c d h = rw h
guard_fails true false c d h = refl
guard_fails false b c d h = refl

below : (n : ℕ) → ltb 0 n ≡ true → 0 < n
below n h = ground arith

at_zero : (p base : ℤ) → p ≡ base → (p -ℤ base ==ℤ pos 0) ≡ true
unfolding ◌-ℤ◌
at_zero p base e = rw e (ground arith)

add_twice : (b : ℤ) (l n : ℕ) → b +ℤ pos l +ℤ pos n ≡ b +ℤ pos (l + n)
unfolding ◌+ℤ◌
add_twice (pos m) l n = ground arith
add_twice (negsuc m) l n = ground arith

add_back : (b : ℤ) (k : ℕ) → b +ℤ pos k -ℤ b ≡ pos k
unfolding ◌+ℤ◌ ◌-ℤ◌
add_back b k = ground arith

zero_add : (b : ℤ) (k : ℕ) → b -ℤ b +ℤ pos k ≡ pos k
unfolding ◌+ℤ◌ ◌-ℤ◌
zero_add b k = ground arith

same_number : (a b : ℤ) → a ≡ b → (a ==ℤ b) ≡ true
same_number a b e = rw e (ground arith)

behind :
    (p q base : ℤ) (len n : ℕ)
    → p ≡ base
    → q ≡ base +ℤ pos len +ℤ pos n
    → (q -ℤ base ==ℤ p -ℤ base +ℤ pos len +ℤ pos n) ≡ true
behind p q base len n e f = same_number _ _ (
    ap (λ a. a -ℤ base) (f ∙ add_twice base len n)
    ∙ (add_back base (len + n)
        ∙ sym (
            ap (λ a. a -ℤ base +ℤ pos len +ℤ pos n) e
            ∙ (add_twice (base -ℤ base) len n ∙ zero_add base (len + n)))))

other_order : (base : ℤ) (len n : ℕ) → base +ℤ pos n +ℤ pos len ≡ base +ℤ pos len +ℤ pos n
other_order base len n =
    add_twice base n len ∙ (ap (λ k. base +ℤ pos k) (omega arith) ∙ sym (add_twice base len n))

above : (n : ℕ) → 0 < n → ltb 0 n ≡ true
above n h = ground arith

module _ (S : Server) (law : IsLawful S) (D : Driver) (g : Globals) (base : ℤ) (n : ℕ) where
  -- The test of `open` on the first two fields.
  needs_shift : S.Field → S.Field → Bool
  needs_shift first second =
      ltb 0 n
      && (not (S.has_null_ptr first)
          && (S.ptr first -ℤ base ==ℤ pos 0)
          && (S.ptr second -ℤ base ==ℤ S.ptr first -ℤ base +ℤ pos (S.pack_length first) +ℤ pos n))

  adjust_first_lem :
      (first second : S.Field) (fields : List S.Field)
      → adjust_first S D g base n (first ∷ second ∷ fields)
        ≡ (if needs_shift first second then S.move_field first (S.ptr first +ℤ pos n) else first)
          ∷ second
          ∷ fields
  unfolding adjust_first needs_shift
  adjust_first_lem first second fields = refl

  needs_shift-move_field :
      (first second : S.Field)
      → needs_shift first second ≡ true
      → needs_shift (S.move_field first (S.ptr first +ℤ pos n)) second ≡ false
  unfolding needs_shift
  needs_shift-move_field first second h =
      let (some_bytes, at_base) = guards (ltb 0 n) _ (S.ptr first -ℤ base ==ℤ pos 0) _ h in
      let moved = S.move_field first (S.ptr first +ℤ pos n) in
      let off : (S.ptr moved -ℤ base ==ℤ pos 0) ≡ false =
        ap (λ p. p -ℤ base ==ℤ pos 0) (law.ptr-move_field first (S.ptr first +ℤ pos n))
        ∙ shifted_off (S.ptr first) base n (below n some_bytes) at_base in
      guard_fails (ltb 0 n) (not (S.has_null_ptr moved)) (S.ptr moved -ℤ base ==ℤ pos 0)
        (S.ptr second -ℤ base ==ℤ S.ptr moved -ℤ base +ℤ pos (S.pack_length moved) +ℤ pos n) off

  -- The first field is shifted once: opening a table whose first field was shifted leaves its fields
  -- as they are.
  adjust_first-adjust_first :
      (fields : List S.Field)
      → adjust_first S D g base n (adjust_first S D g base n fields)
        ≡ adjust_first S D g base n fields
  adjust_first-adjust_first [] = unfold adjust_first in refl
  adjust_first-adjust_first (first ∷ []) = unfold adjust_first in refl
  adjust_first-adjust_first (first ∷ second ∷ fields) =
      elim (Bool-cases (needs_shift first second)) [
        | inl e ↦
            let shifted : adjust_first S D g base n (first ∷ second ∷ fields)
                ≡ S.move_field first (S.ptr first +ℤ pos n) ∷ second ∷ fields =
              adjust_first_lem first second fields
              ∙ ap
                  (λ b.
                    (if b then S.move_field first (S.ptr first +ℤ pos n) else first)
                    ∷ second
                    ∷ fields)
                  e in
            rw shifted (
              adjust_first_lem (S.move_field first (S.ptr first +ℤ pos n)) second fields
              ∙ rw (needs_shift-move_field first second e))
        | inr e ↦
            let same : adjust_first S D g base n (first ∷ second ∷ fields)
                ≡ first ∷ second ∷ fields =
              adjust_first_lem first second fields
              ∙ ap
                  (λ b.
                    (if b then S.move_field first (S.ptr first +ℤ pos n) else first)
                    ∷ second
                    ∷ fields)
                  e in
            rw same same
      ]

  -- The first field is moved once behind the null bytes, when the second leaves room for them.
  pub adjust_first-fits :
      (first second : S.Field) (fields : List S.Field)
      → 0 < n
      → S.has_null_ptr first ≡ false
      → S.ptr first ≡ base
      → S.ptr second ≡ base +ℤ pos (S.pack_length first) +ℤ pos n
      → (let moved = S.move_field first (base +ℤ pos n) in
          (adjust_first S D g base n (first ∷ second ∷ fields) ≡ moved ∷ second ∷ fields)
          × (S.ptr moved +ℤ pos (S.pack_length moved) ≡ S.ptr second)
          × (adjust_first S D g base n (moved ∷ second ∷ fields) ≡ moved ∷ second ∷ fields))
  unfolding needs_shift
  adjust_first-fits first second fields h present e f =
      let shift : needs_shift first second ≡ true = rw (
        above n h,
        present,
        at_zero (S.ptr first) base e,
        behind (S.ptr first) (S.ptr second) base (S.pack_length first) n e f,
      ) in
      let once : adjust_first S D g base n (first ∷ second ∷ fields)
          ≡ S.move_field first (base +ℤ pos n) ∷ second ∷ fields =
        adjust_first_lem first second fields
        ∙ (ap
              (λ b.
                (if b then S.move_field first (S.ptr first +ℤ pos n) else first) ∷ second ∷ fields)
              shift
            ∙ ap (λ p. S.move_field first (p +ℤ pos n) ∷ second ∷ fields) e) in
      (
        once,
        rw
            (
              law.ptr-move_field first (base +ℤ pos n),
              law.pack_length-move_field first (base +ℤ pos n),
              f,
            )
            (other_order base (S.pack_length first) n),
        ap (adjust_first S D g base n) (sym once)
            ∙ (adjust_first-adjust_first (first ∷ second ∷ fields) ∙ once),
      )
