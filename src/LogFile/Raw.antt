-- ===== src/LogFile/Raw.antt =====
-- How the loop of read_pd_sets of src/zray_dyn.cc reads records of any bytes, damaged ones included.
use zray.Base.{
  ℕ, zero, suc, ◌≤◌, ◌<◌, ◌≡◌, refl, ap, ◌∙◌, sym, true, false, not, List, [], ◌∷◌, ◌++◌, length,
  length-append, length-replicate, take-append, drop-append, replicate, map, leb, ◌==◌, All, arith,
}
use zray.Report.{Named, Counters, Report, read_pd_sets}
use zray.LogFile.{
  encode_word, decode_word, decode_profile, checksum, read_into, Held, Entry, read_entries,
  read_log, records, read_pd_sets_file,
}
use zray.LogFile.Words.{IsWord, word_back, length-encode_word}

leb_append : (xs rest : List ℕ) → leb (length xs) (length (xs ++ rest)) ≡ true
leb_append xs rest = ground (arith, length-append xs rest)

-- A read that the bytes ahead fill.
read_whole :
    (buffer xs rest : List ℕ)
    → length buffer ≡ length xs
    → read_into buffer (record { ahead = xs ++ rest; good = true })
      ≡ (xs, record { ahead = rest; good = true })
unfolding read_into
read_whole buffer xs rest h = rw (h, leb_append xs rest, take-append, drop-append) refl

-- A read that they do not.
read_short :
    (buffer tail : List ℕ)
    → length tail < length buffer
    → (read_into buffer (record { ahead = tail; good = true })).1.good ≡ false
unfolding read_into
read_short buffer tail h = ground arith

-- The buffers have the sizes of the variables.
abbrev pub Sized : Held → Type 0
Sized held = (length held.profile ≡ 216) × (length held.check ≡ 4) × (length held.name_len ≡ 8)

-- A record as the file holds it: the bytes of the profile, of the checksum and of the name.
pub record RawRecord : Type 0 where
  pub profile : List ℕ
  pub check : List ℕ
  pub name : List ℕ

-- The parts have the sizes that the reads ask for.
abbrev pub FitsReads : RawRecord → Type 0
FitsReads r = (length r.profile ≡ 216) × (length r.check ≡ 4) × IsWord (length r.name)

-- The bytes of a record, with those that follow it.
abbrev pub raw_entry : RawRecord → List ℕ → List ℕ
raw_entry r rest = r.profile ++ (r.check ++ (encode_word 8 (length r.name) ++ (r.name ++ rest)))

abbrev pub raw_log : List RawRecord → List ℕ → List ℕ
raw_log [] rest = rest
raw_log (r ∷ rs) rest = raw_entry r (raw_log rs rest)

-- What the loop makes of a record: its profile, and a mismatch if the checksum is another.
abbrev pub read_as : RawRecord → Entry
read_as r = ((r.name, decode_profile r.profile), not (checksum r.profile == decode_word r.check))

-- What the variables hold after a record.
abbrev after : RawRecord → Held
after r = record { profile = r.profile; check = r.check; name_len = encode_word 8 (length r.name) }

read_raw :
    (fuel : ℕ) (held : Held) (r : RawRecord) (rest : List ℕ)
    → Sized held
    → FitsReads r
    → read_entries (suc fuel) held (record { ahead = raw_entry r rest; good = true })
      ≡ read_as r ∷ read_entries fuel (after r) (record { ahead = rest; good = true })
unfolding read_entries
read_raw fuel held r rest (sp, sc, sn) (hp, hc, hn) =
    rw
      (
        read_whole held.profile r.profile _ (sp ∙ sym hp),
        read_whole held.check r.check _ (sc ∙ sym hc),
        read_whole held.name_len _ _ (sn ∙ sym (length-encode_word 8 (length r.name))),
        word_back (length r.name) hn,
        read_whole (replicate (length r.name) 0) r.name rest (length-replicate (length r.name) 0),
      )
      refl

after-Sized : (r : RawRecord) → FitsReads r → Sized (after r)
after-Sized r (hp, hc, _) = (hp, hc, length-encode_word 8 (length r.name))

read_tail :
    (fuel : ℕ) (held : Held) (tail : List ℕ)
    → Sized held
    → length tail < 216
    → read_entries fuel held (record { ahead = tail; good = true }) ≡ []
unfolding read_entries
read_tail zero held tail h k = refl
read_tail (suc fuel) held tail (h, _, _) k = rw (read_short held.profile tail (omega arith)) refl

read_entries-raw_log :
    (fuel : ℕ) (held : Held) (rs : List RawRecord) (tail : List ℕ)
    → Sized held
    → All FitsReads rs
    → length tail < 216
    → length rs ≤ fuel
    → read_entries fuel held (record { ahead = raw_log rs tail; good = true }) ≡ map read_as rs
read_entries-raw_log fuel held [] tail h hs t k = read_tail fuel held tail h t
read_entries-raw_log zero held (r ∷ rs) tail h hs t k = absurd (omega arith)
read_entries-raw_log (suc fuel) held (r ∷ rs) tail h (hr, hs) t k =
    read_raw fuel held r (raw_log rs tail) h hr
    ∙ ap (◌∷◌ (read_as r))
        (read_entries-raw_log fuel (after r) rs tail (after-Sized r hr) hs t (omega arith))

length-raw_log :
    (rs : List RawRecord) (tail : List ℕ) → All FitsReads rs → length rs ≤ length (raw_log rs tail)
length-raw_log [] tail h = omega arith
length-raw_log (r ∷ rs) tail ((hp, hc, _), hs) =
    let behind = encode_word 8 (length r.name) ++ (r.name ++ raw_log rs tail) in
    omega (
      arith,
      length-append r.profile (r.check ++ behind),
      length-append r.check behind,
      length-append (encode_word 8 (length r.name)) (r.name ++ raw_log rs tail),
      length-append r.name (raw_log rs tail),
      length-raw_log rs tail hs,
      hp,
    )

-- Each record of a log comes out with its decoded profile, and with the mismatch that is printed.
pub read_log-raw_log :
    (held : Held) (rs : List RawRecord) (tail : List ℕ)
    → Sized held
    → All FitsReads rs
    → length tail < 216
    → read_log held (raw_log rs tail) ≡ map read_as rs
unfolding read_log
read_log-raw_log held rs tail h hs t =
    read_entries-raw_log (length (raw_log rs tail)) held rs tail h hs t (length-raw_log rs tail hs)

-- The record that a raw one stands for, whatever its checksum.
abbrev pub decoded : RawRecord → Named
decoded r = (r.name, decode_profile r.profile)

records-decoded : (rs : List RawRecord) → records (map read_as rs) ≡ map decoded rs
records-decoded [] = refl
records-decoded (r ∷ rs) = ap (◌∷◌ (decoded r)) (records-decoded rs)

-- Whatever the checksums of a log's records are, right or wrong, read_pd_sets counts every record:
-- for a log of records whose profiles have 216 bytes, whose checksums have 4 and whose names'
-- lengths are below 2 ^ 64, with fewer than 216 bytes behind them, the report is that of the
-- decoded profiles and names, on which the checksums have no influence.
pub read_pd_sets_file-raw_log :
    (c : Counters) (held : Held) (rs : List RawRecord) (tail : List ℕ) (s : Report)
    → Sized held
    → All FitsReads rs
    → length tail < 216
    → read_pd_sets_file c held (raw_log rs tail) s ≡ read_pd_sets c (map decoded rs) s
unfolding read_pd_sets_file
read_pd_sets_file-raw_log c held rs tail s h hs t =
    ap (λ log. read_pd_sets c log s)
      (ap records (read_log-raw_log held rs tail h hs t) ∙ records-decoded rs)
