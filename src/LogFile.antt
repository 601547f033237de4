-- ===== src/LogFile.antt =====
-- The profile log as bytes: what insertCustomEvent of src/zray_codegen.cc appends for a record, and
-- the reads at the head of the loop of read_pd_sets of src/zray_dyn.cc. A word of the x86-64
-- machine is stored with its low byte first, and char is signed.
pub mod Words
pub mod Raw
pub mod RoundTrip
pub mod Fuel
mod Tests
use Prim.Native.Nat.{bit_xor}
use zray.Base.{
  ℕ, zero, suc, ◌+◌, ◌-◌, ◌*◌, ◌/◌, ◌%◌, ◌^◌, Bool, true, false, not, List, [], ◌∷◌, ◌++◌, length,
  take, drop, replicate, leb, ltb, ◌==◌, if◌then◌else◌,
}
use zray.Profile.{ProfileData, new_profile}
use zray.Report.{Named, Counters, Report, read_pd_sets}

-- The `k` bytes of a word.
unfoldable pub encode_word : ℕ → ℕ → List ℕ
encode_word zero n = []
encode_word (suc k) n = (n % 256) ∷ encode_word k (n / 256)

unfoldable pub decode_word : List ℕ → ℕ
decode_word [] = 0
decode_word (b ∷ bs) = b + 256 * decode_word bs

unfoldable pub encode_words : List ℕ → List ℕ
unfolding encode_word
encode_words [] = []
encode_words (w ∷ ws) = encode_word 8 w ++ encode_words ws

-- `n` words of eight bytes, and the bytes behind them.
unfoldable pub decode_words : ℕ → List ℕ → List ℕ × List ℕ
unfolding decode_word
decode_words zero bs = ([], bs)
decode_words (suc n) bs =
    let (ws, rest) = decode_words n (drop 8 bs) in (decode_word (take 8 bs) ∷ ws, rest)

-- The size_t members, in the order of the struct.
unfoldable pub member_words : ProfileData → List ℕ
member_words p =
    p.post_dom_set_id ∷ p.pragma_region_id ∷ p.group_number ∷ p.store_count ∷ p.float_store_count
    ∷ p.load_count ∷ p.float_load_count ∷ p.bytes_read ∷ p.bytes_written ∷ p.int_instruction_count
    ∷ p.fp_instruction_count ∷ p.term_instruction_count ∷ p.mem_instruction_count
    ∷ p.cast_instruction_count ∷ p.global_op_read_count ∷ p.global_op_write_count
    ∷ p.stack_read_count ∷ p.stack_write_count ∷ p.heap_read_count ∷ p.heap_write_count
    ∷ p.other_inst_count ∷ p.intrinsic_load ∷ p.intrinsic_store ∷ p.total_inst_count
    ∷ p.counter_inst_count ∷ p.split_counters ∷ []

unfoldable pub profile_of : List ℕ → Bool → Bool → ProfileData
profile_of
      (a0 ∷ a1 ∷ a2 ∷ a3 ∷ a4 ∷ a5 ∷ a6 ∷ a7 ∷ a8 ∷ a9 ∷ a10 ∷ a11 ∷ a12 ∷ a13 ∷ a14 ∷ a15 ∷ a16
        ∷ a17 ∷ a18 ∷ a19 ∷ a20 ∷ a21 ∷ a22 ∷ a23 ∷ a24 ∷ a25 ∷ [])
      indirect mir =
    record {
      post_dom_set_id = a0;
      pragma_region_id = a1;
      group_number = a2;
      store_count = a3;
      float_store_count = a4;
      load_count = a5;
      float_load_count = a6;
      bytes_read = a7;
      bytes_written = a8;
      int_instruction_count = a9;
      fp_instruction_count = a10;
      term_instruction_count = a11;
      mem_instruction_count = a12;
      cast_instruction_count = a13;
      global_op_read_count = a14;
      global_op_write_count = a15;
      stack_read_count = a16;
      stack_write_count = a17;
      heap_read_count = a18;
      heap_write_count = a19;
      other_inst_count = a20;
      intrinsic_load = a21;
      intrinsic_store = a22;
      total_inst_count = a23;
      counter_inst_count = a24;
      split_counters = a25;
      is_indirect = indirect;
      enable_mir_pass = mir;
    }
profile_of ws indirect mir = new_profile mir

abbrev pub byte_of : Bool → ℕ
byte_of true = 1
byte_of false = 0

abbrev pub padding : List ℕ
padding = replicate 6 0

-- sizeof(ProfileData)
abbrev pub profile_size : ℕ
profile_size = 216

-- The memory of a profile that clearRecords has zeroed: 26 words, two bools, and the padding.
unfoldable pub encode_profile : ProfileData → List ℕ
unfolding encode_words member_words
encode_profile p =
    encode_words (member_words p) ++ (byte_of p.is_indirect ∷ byte_of p.enable_mir_pass ∷ padding)

abbrev pub byte_at : ℕ → List ℕ → ℕ
byte_at i [] = 0
byte_at zero (b ∷ bs) = b
byte_at (suc i) (b ∷ bs) = byte_at i bs

unfoldable pub decode_profile : List ℕ → ProfileData
unfolding decode_words profile_of
decode_profile bs =
    let (ws, rest) = decode_words 26 bs in
    profile_of ws (not (byte_at 0 rest == 0)) (not (byte_at 1 rest == 0))

-- A char that becomes an int, as a pattern of 32 bits.
abbrev pub sign_extend : ℕ → ℕ
sign_extend b = if ltb b 128 then b else b + (2 ^ 32 - 256)

-- checksum, from a sum on
unfoldable pub checksum_from : ℕ → List ℕ → ℕ
checksum_from sum [] = sum
checksum_from sum (b ∷ bs) = checksum_from (bit_xor sum (sign_extend b) % 2 ^ 32) bs

unfoldable pub checksum : List ℕ → ℕ
unfolding checksum_from
checksum bs = checksum_from 0 bs

-- The four writes of a record.
unfoldable pub write_entry : Named → List ℕ
unfolding encode_profile checksum encode_word
write_entry (name, p) =
    encode_profile p
    ++ (encode_word 4 (checksum (encode_profile p)) ++ (encode_word 8 (length name) ++ name))

unfoldable pub write_log : List Named → List ℕ
unfolding write_entry
write_log [] = []
write_log (r ∷ rs) = write_entry r ++ write_log rs

-- An ifstream: the bytes ahead, and whether no read has failed.
pub record Stream : Type 0 where
  pub ahead : List ℕ
  pub good : Bool

-- istream::read into a buffer, whose old bytes come as the first argument. A read past the end takes what there is and fails, and one that
-- follows it changes nothing.
unfoldable pub read_into : List ℕ → Stream → List ℕ × Stream
read_into buffer s =
    if not s.good
    then (buffer, s)
    else if leb (length buffer) (length s.ahead)
    then (take (length buffer) s.ahead, record s { ahead = drop (length buffer) s.ahead })
    else (s.ahead ++ drop (length s.ahead) buffer, record { ahead = []; good = false })

-- The local variables of read_pd_sets that a failed read leaves as they were: the bytes of
-- inProfile, InCheck and FunctionNameLen.
pub record Held : Type 0 where
  pub profile : List ℕ
  pub check : List ℕ
  pub name_len : List ℕ

-- A record as it was read, and whether "Checksum mismatch!" was printed.
abbrev pub Entry : Type 0
Entry = Named × Bool

-- The reads of the loop of read_pd_sets; each round takes the bytes of a profile at least, so that
-- the file's length is fuel enough.
unfoldable pub read_entries : ℕ → Held → Stream → List Entry
read_entries zero held s = []
read_entries (suc fuel) held s =
    let (profile, s1) = read_into held.profile s in
    let (check, s2) = read_into held.check s1 in
    let (name_len, s3) = read_into held.name_len s2 in
    let (name, s4) = read_into (replicate (decode_word name_len) 0) s3 in
    let entry : Entry =
      ((name, decode_profile profile), not (checksum profile == decode_word check)) in
    let next : Held = record { profile = profile; check = check; name_len = name_len } in
    let more = read_entries fuel next s4 in if s1.good then entry ∷ more else []

unfoldable pub read_log : Held → List ℕ → List Entry
unfolding read_entries
read_log held bytes = read_entries (length bytes) held (record { ahead = bytes; good = true })

abbrev pub records : List Entry → List Named
records [] = []
records ((r, mismatch) ∷ es) = r ∷ records es

-- read_pd_sets, on the bytes of the log.
unfoldable pub read_pd_sets_file : Counters → Held → List ℕ → Report → Report
unfolding read_log read_pd_sets
read_pd_sets_file c held bytes s = read_pd_sets c (records (read_log held bytes)) s
