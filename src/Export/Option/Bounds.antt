-- ===== src/Export/Option/Bounds.antt =====
-- What exportStringOption and exportBytesOption of go/pkg/driver.go write.
use adbc_driver_mariadb.Base.{
  ℕ, zero, suc, ◌+◌, ◌≤◌, leb, Bool-cases, leb→le, ◌≡◌, refl, ap, [], ◌∷◌, ◌++◌, length, take, drop,
  length-append, arith, inl, inr,
}
use adbc_driver_mariadb.Base.Text.{Bytes}
use adbc_driver_mariadb.Export.Option.{Buffer, copy, export_string_option, export_bytes_option}

length-copy : (bytes sink : Bytes) → length (copy bytes sink) ≡ length sink
unfolding copy
length-copy [] sink = refl
length-copy (b ∷ bytes) [] = refl
length-copy (b ∷ bytes) (c ∷ sink) = ap suc (length-copy bytes sink)

drop-copy : (n : ℕ) (bytes sink : Bytes) → length bytes ≤ n → drop n (copy bytes sink) ≡ drop n sink
unfolding copy
drop-copy n [] sink h = refl
drop-copy n (b ∷ bytes) [] h = refl
drop-copy zero (b ∷ bytes) (c ∷ sink) h = absurd (omega (arith, h))
drop-copy (suc n) (b ∷ bytes) (c ∷ sink) h = drop-copy n bytes sink (omega (arith, h))

take-copy :
    (bytes sink : Bytes)
    → length bytes ≤ length sink
    → take (length bytes) (copy bytes sink) ≡ bytes
unfolding copy
take-copy [] sink h = refl
take-copy (b ∷ bytes) [] h = absurd (omega (arith, h))
take-copy (b ∷ bytes) (c ∷ sink) h = ap (λ r. b ∷ r) (take-copy bytes sink (omega (arith, h)))

copied_when_room :
    (val memory : Bytes)
    → (export_string_option val (record { memory = memory; room = length val + 1 })).memory
      ≡ copy (val ++ 0 ∷ []) memory
unfolding export_string_option
copied_when_room val memory = ground arith

-- A text option, whatever its length: the memory after the caller's length stays as it is, the memory
-- keeps its extent, and the reported length is that of the text with its NUL.
pub export_string_option_bounds :
    (val : Bytes) (out : Buffer)
    → (drop out.room (export_string_option val out).memory ≡ drop out.room out.memory)
      × (length (export_string_option val out).memory ≡ length out.memory)
      × ((export_string_option val out).room ≡ length val + 1)
unfolding export_string_option
export_string_option_bounds val out = elim (Bool-cases (leb (length val + 1) out.room)) [
  | inl fits ↦
      let n = length-append val (0 ∷ []) in
      let h = leb→le (length val + 1) out.room fits in
      rw fits (
        drop-copy out.room (val ++ 0 ∷ []) out.memory (omega (arith, n, h)),
        length-copy (val ++ 0 ∷ []) out.memory,
        refl,
      )
  | inr more ↦ rw more (refl, refl, refl)
]

-- The two calls of a caller: with the length that a first call reported, whatever that was given, and
-- as much memory or more, a second call leaves the text and a NUL at the start of the memory.
pub export_string_option-twice :
    (val : Bytes) (first : Buffer) (memory : Bytes)
    → (export_string_option val first).room ≤ length memory
    → take
        (length val + 1)
        (export_string_option val
          (record { memory = memory; room = (export_string_option val first).room })).memory
      ≡ val ++ 0 ∷ []
export_string_option-twice val first memory h =
    let n = length-append val (0 ∷ []) in
    let e = (export_string_option_bounds val first).2 in
    let k : length (val ++ 0 ∷ []) ≡ length val + 1 = omega (arith, n) in
    rw e (
      rw (copied_when_room val memory)
        (rw (← k) (take-copy (val ++ 0 ∷ []) memory (omega (arith, n, e, h)))))

-- Bytes, without a NUL.
pub export_bytes_option_bounds :
    (val : Bytes) (out : Buffer)
    → (drop out.room (export_bytes_option val out).memory ≡ drop out.room out.memory)
      × (length (export_bytes_option val out).memory ≡ length out.memory)
      × ((export_bytes_option val out).room ≡ length val)
unfolding export_bytes_option
export_bytes_option_bounds val out = elim (Bool-cases (leb (length val) out.room)) [
  | inl fits ↦ rw fits (
    drop-copy out.room val out.memory (leb→le (length val) out.room fits),
    length-copy val out.memory,
    refl,
  )
  | inr more ↦ rw more (refl, refl, refl)
]
