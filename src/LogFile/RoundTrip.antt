-- ===== src/LogFile/RoundTrip.antt =====
-- What insertCustomEvent of src/zray_codegen.cc writes is what read_pd_sets of src/zray_dyn.cc reads.
use zray.Base.{
  ℕ, ◌+◌, ◌<◌, ◌≡◌, refl, ap, ap₂, ◌∙◌, Bool, true, false, not, List, [], ◌∷◌, ◌++◌, append_assoc,
  length, length-append, map, ◌==◌, ==_refl, All,
}
use zray.Profile.{ProfileData}
use zray.Report.{Named, Counters, Report, read_pd_sets}
use zray.LogFile.{
  encode_word, encode_words, member_words, profile_of, byte_of, byte_at, padding, encode_profile,
  decode_profile, checksum, write_entry, write_log, Held, Entry, read_log, records,
  read_pd_sets_file,
}
use zray.LogFile.Raw.{Sized, RawRecord, FitsReads, raw_entry, raw_log, read_as, read_log-raw_log}
use zray.LogFile.Words.{
  IsWord, length-encode_word, length-encode_words, decode_words-encode_words, check_back,
}

flag_back : (b : Bool) → not (byte_of b == 0) ≡ b
flag_back true = refl
flag_back false = refl

-- The members of a profile are size_t.
abbrev pub Members : ProfileData → Type 0
unfolding member_words
Members p = All IsWord (member_words p)

pub decode_profile-encode_profile :
    (p : ProfileData) → Members p → decode_profile (encode_profile p) ≡ p
unfolding decode_profile encode_profile member_words profile_of
decode_profile-encode_profile p h =
    ap
      (λ (r : List ℕ × List ℕ).
        let (ws, rest) = r in profile_of ws (not (byte_at 0 rest == 0)) (not (byte_at 1 rest == 0)))
      (decode_words-encode_words (member_words p)
        (byte_of p.is_indirect ∷ byte_of p.enable_mir_pass ∷ padding) h)
    ∙ ap₂ (profile_of (member_words p)) (flag_back p.is_indirect) (flag_back p.enable_mir_pass)

pub length-encode_profile : (p : ProfileData) → length (encode_profile p) ≡ 216
unfolding encode_profile member_words
length-encode_profile p =
    length-append (encode_words (member_words p))
      (byte_of p.is_indirect ∷ byte_of p.enable_mir_pass ∷ padding)
    ∙ ap (λ n. n + 8) (length-encode_words (member_words p))

-- A record is a name whose length is a word, and a profile.
abbrev pub IsRecord : Named → Type 0
IsRecord (name, p) = IsWord (length name) × Members p

-- What insertCustomEvent writes for a record.
abbrev raw_of : Named → RawRecord
raw_of (name, p) = record {
  profile = encode_profile p;
  check = encode_word 4 (checksum (encode_profile p));
  name = name;
}

write_entry-append :
    (name : List ℕ) (p : ProfileData) (rest : List ℕ)
    → write_entry (name, p) ++ rest ≡ raw_entry (raw_of (name, p)) rest
unfolding write_entry
write_entry-append name p rest = simp append_assoc

write_log-raw_log :
    (rs : List Named) (tail : List ℕ) → write_log rs ++ tail ≡ raw_log (map raw_of rs) tail
unfolding write_log
write_log-raw_log [] tail = refl
write_log-raw_log ((name, p) ∷ rs) tail =
    append_assoc (write_entry (name, p)) (write_log rs) tail
    ∙ write_entry-append name p (write_log rs ++ tail)
    ∙ ap (raw_entry (raw_of (name, p))) (write_log-raw_log rs tail)

raw_of-FitsReads : (rs : List Named) → All IsRecord rs → All FitsReads (map raw_of rs)
raw_of-FitsReads [] h = tt
raw_of-FitsReads ((name, p) ∷ rs) ((hn, hp), hs) =
    ((length-encode_profile p, length-encode_word 4 _, hn), raw_of-FitsReads rs hs)

-- A record that is read as it was written, and that raised no mismatch.
abbrev pub sound : Named → Entry
sound r = (r, false)

read_as-sound : (r : Named) → IsRecord r → read_as (raw_of r) ≡ sound r
read_as-sound (name, p) (hn, hp) =
    rw
      (
        decode_profile-encode_profile p hp,
        check_back (encode_profile p),
        ==_refl (checksum (encode_profile p)),
      )
      refl

read_as-raw_of : (rs : List Named) → All IsRecord rs → map read_as (map raw_of rs) ≡ map sound rs
read_as-raw_of [] h = refl
read_as-raw_of (r ∷ rs) (h, hs) = ap₂ ◌∷◌ (read_as-sound r h) (read_as-raw_of rs hs)

records-sound : (rs : List Named) → records (map sound rs) ≡ rs
records-sound [] = refl
records-sound (r ∷ rs) = ap (◌∷◌ r) (records-sound rs)

-- Every record comes back with its name and profile, and no mismatch is printed.
pub read_log-write_log :
    (held : Held) (rs : List Named) (tail : List ℕ)
    → Sized held
    → All IsRecord rs
    → length tail < 216
    → read_log held (write_log rs ++ tail) ≡ map sound rs
read_log-write_log held rs tail h hs t =
    ap (read_log held) (write_log-raw_log rs tail)
    ∙ read_log-raw_log held (map raw_of rs) tail h (raw_of-FitsReads rs hs) t
    ∙ read_as-raw_of rs hs

-- A profile log is read as it was written: for records whose members and name lengths are below
-- 2 ^ 64, with fewer than 216 bytes behind them (none, or a record that was cut short), and for
-- variables of the right sizes, the report that read_pd_sets makes of the file's bytes is the one
-- it makes of the records, in their order, and the rest of the file is ignored.
pub read_pd_sets_file-write_log :
    (c : Counters) (held : Held) (rs : List Named) (tail : List ℕ) (s : Report)
    → Sized held
    → All IsRecord rs
    → length tail < 216
    → read_pd_sets_file c held (write_log rs ++ tail) s ≡ read_pd_sets c rs s
unfolding read_pd_sets_file
read_pd_sets_file-write_log c held rs tail s h hs t =
    ap (λ log. read_pd_sets c log s)
      (ap records (read_log-write_log held rs tail h hs t) ∙ records-sound rs)
