-- ===== src/LogFile/Fuel.antt =====
-- The loop of read_pd_sets of src/zray_dyn.cc ends on every file.
use zray.Base.{
  ℕ, zero, suc, ◌+◌, ◌≤◌, ◌<◌, ◌≡◌, refl, ap, ◌∙◌, sym, true, false, not, List, [], ◌∷◌, length,
  length-append, take, drop, leb, if_cases, Bool-cases, inl, inr, arith, replicate,
}
use mathlib.Core.Bool.{true≢false}
use zray.LogFile.{Stream, read_into, Held, read_entries, read_log, decode_word}

leb→le : (a b : ℕ) → leb a b ≡ true → a ≤ b
leb→le a b h = ground arith

leb→lt : (a b : ℕ) → leb a b ≡ false → b < a
leb→lt a b h = ground arith

length-take : (n : ℕ) (xs : List ℕ) → n ≤ length xs → length (take n xs) ≡ n
length-take zero xs h = refl
length-take (suc n) [] h = absurd (omega arith)
length-take (suc n) (x ∷ xs) h = ap suc (length-take n xs (omega arith))

length-drop : (n : ℕ) (xs : List ℕ) → n ≤ length xs → length (drop n xs) + n ≡ length xs
length-drop zero xs h = omega arith
length-drop (suc n) [] h = absurd (omega arith)
length-drop (suc n) (x ∷ xs) h = omega (arith, length-drop n xs (omega arith))

-- A read keeps the buffer's size and takes from the bytes ahead what it says it takes.
abbrev Taken : List ℕ → Stream → List ℕ × Stream → Type 0
Taken buffer s (bytes, s') =
    (length bytes ≡ length buffer)
    × (length s'.ahead ≤ length s.ahead)
    × (s'.good ≡ true → length s'.ahead + length buffer ≡ length s.ahead)

read_into-Taken : (buffer : List ℕ) (s : Stream) → Taken buffer s (read_into buffer s)
unfolding read_into
read_into-Taken buffer s =
    if_cases (Taken buffer s) (not s.good) _ _
      (λ bad. (refl, omega arith, λ good. absurd (true≢false (sym bad ∙ ap not good))))
      (λ _.
        if_cases (Taken buffer s) (leb (length buffer) (length s.ahead)) _ _
          (λ fits.
            let le = leb→le _ _ fits in
            (
              length-take (length buffer) s.ahead le,
              omega (arith, length-drop (length buffer) s.ahead le),
              λ good. length-drop (length buffer) s.ahead le,
            ))
          (λ short.
            let lt = leb→lt _ _ short in
            (
              omega (
                arith,
                length-append s.ahead (drop (length s.ahead) buffer),
                length-drop (length s.ahead) buffer (omega arith),
              ),
              omega arith,
              λ good. absurd (true≢false (sym good)),
            )))

-- The bytes that a stream has ahead after the four reads of a round.
round_shrinks :
    (held : Held) (s : Stream)
    → length held.profile ≡ 216
    → (read_into held.profile s).1.good ≡ true
    → length (read_into held.profile s).1.ahead < length s.ahead
round_shrinks held s h good =
    let (_, _, took) = read_into-Taken held.profile s in omega (arith, took good, h)

-- The stream behind the four reads of a round.
abbrev round_end : Held → Stream → Stream
round_end held s =
    let (_, s1) = read_into held.profile s in
    let (_, s2) = read_into held.check s1 in
    let (name_len, s3) = read_into held.name_len s2 in
    (read_into (replicate (decode_word name_len) 0) s3).1

-- What its variables then hold.
abbrev round_held : Held → Stream → Held
round_held held s =
    let (profile, s1) = read_into held.profile s in
    let (check, s2) = read_into held.check s1 in
    record { profile = profile; check = check; name_len = (read_into held.name_len s2).0 }

round_end-shrinks :
    (held : Held) (s : Stream)
    → length held.profile ≡ 216
    → (read_into held.profile s).1.good ≡ true
    → length (round_end held s).ahead < length s.ahead
round_end-shrinks held s h good =
    let (_, s1) = read_into held.profile s in
    let (_, s2) = read_into held.check s1 in
    let (name_len, s3) = read_into held.name_len s2 in
    omega (
      arith,
      round_shrinks held s h good,
      (read_into-Taken held.check s1).1,
      (read_into-Taken held.name_len s2).1,
      (read_into-Taken (replicate (decode_word name_len) 0) s3).1,
    )

nothing_ahead :
    (m : ℕ) (held : Held) (s : Stream)
    → length held.profile ≡ 216
    → length s.ahead ≤ 0
    → read_entries m held s ≡ []
unfolding read_entries
nothing_ahead zero held s h k = refl
nothing_ahead (suc m) held s h k = elim (Bool-cases (read_into held.profile s).1.good) [
  | inl good ↦ absurd (omega (arith, round_shrinks held s h good))
  | inr bad ↦ rw bad refl
]

-- Two amounts of fuel that are no less than the bytes ahead give the same records.
pub read_entries-enough :
    (n m : ℕ) (held : Held) (s : Stream)
    → length held.profile ≡ 216
    → length s.ahead ≤ n
    → length s.ahead ≤ m
    → read_entries n held s ≡ read_entries m held s
unfolding read_entries
read_entries-enough zero m held s h hn hm = sym (nothing_ahead m held s h hn)
read_entries-enough (suc n) zero held s h hn hm = nothing_ahead (suc n) held s h hm
read_entries-enough (suc n) (suc m) held s h hn hm =
    elim (Bool-cases (read_into held.profile s).1.good) [
      | inr bad ↦ rw bad refl
      | inl good ↦
          let shrinks = round_end-shrinks held s h good in
          let same =
            read_entries-enough n m (round_held held s) (round_end held s)
              ((read_into-Taken held.profile s).0 ∙ h) (omega arith) (omega arith) in
          rw (good, same) refl
    ]

-- On the bytes of any file, well formed or not, the loop of read_pd_sets ends: with the size of
-- InProfile at 216 bytes, every amount of fuel from the file's length on gives the records of
-- read_log, so that the loop ran out of bytes and not of fuel.
pub read_log-enough :
    (n : ℕ) (held : Held) (bytes : List ℕ)
    → length held.profile ≡ 216
    → length bytes ≤ n
    → read_entries n held (record { ahead = bytes; good = true }) ≡ read_log held bytes
unfolding read_log
read_log-enough n held bytes h hn =
    read_entries-enough n (length bytes) held (record { ahead = bytes; good = true }) h hn
      (omega arith)
