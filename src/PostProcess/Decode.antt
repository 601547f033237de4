-- ===== src/PostProcess/Decode.antt =====
-- Reading back what the host wrote: src/post_process.cc against the writes of src/zray_dyn.cc.
use zray.Base.{
  ℕ, zero, suc, ◌≤◌, ◌≡◌, refl, List, [], ◌∷◌, ◌++◌, length, arith, ap, ◌∙◌, All, length-append,
}
use zray.Base.Word.{wmul}
use zray.Host.{put}
use zray.PostProcess.{counter_delta, emit, Logs, read_words, process, process_log}
use zray.PostProcess.Epochs.{LogRecord, epochs}

-- The words of a record in front of others, and those of a whole log.
abbrev pub encode : LogRecord → List ℕ → List ℕ
encode r rest = r.tid ∷ (r.counters ++ (r.time ∷ (r.loads ++ (r.stores ++ rest))))

abbrev pub encode_all : List LogRecord → List ℕ
encode_all [] = []
encode_all (r ∷ rs) = encode r (encode_all rs)

abbrev pub Fits : ℕ → LogRecord → Type 0
Fits n r = (length r.counters ≡ n) × (length r.loads ≡ n) × (length r.stores ≡ n)

pub read_words-append :
    (held n : ℕ) (xs rest : List ℕ) → length xs ≡ n → read_words held n (xs ++ rest) ≡ (xs, rest)
unfolding read_words
read_words-append held zero [] rest h = refl
read_words-append held zero (x ∷ xs) rest h = absurd (omega (arith, h))
read_words-append held (suc n) [] rest h = absurd (omega (arith, h))
read_words-append held (suc n) (x ∷ xs) rest h =
    ap (λ (ws, r). (x ∷ ws, r)) (read_words-append held n xs rest (omega arith))

-- One round on a whole record, whatever follows it.
pub process-record :
    (fuel held last n : ℕ) (logs : Logs) (r : LogRecord) (tail : List ℕ)
    → Fits n r
    → process (suc fuel) held last n logs (encode r tail)
      ≡ emit r.tid
          (counter_delta logs r.tid r.counters)
          r.time
          r.loads
          r.stores
          (process fuel held r.time n (put r.tid r.counters logs) tail)
unfolding process read_words
process-record fuel held last n logs r tail h =
    rw
      (
        read_words-append 0 n r.counters (r.time ∷ (r.loads ++ (r.stores ++ tail))) h.0,
        read_words-append held n r.loads (r.stores ++ tail) h.1,
        read_words-append held n r.stores tail h.2,
        process,
      )
      refl

process-encode :
    (fuel held last n : ℕ) (logs : Logs) (rs : List LogRecord)
    → All (Fits n) rs
    → length rs ≤ fuel
    → process fuel held last n logs (encode_all rs) ≡ epochs logs rs
unfolding process epochs
process-encode zero held last n logs [] h k = refl
process-encode (suc fuel) held last n logs [] h k = refl
process-encode zero held last n logs (r ∷ rs) h k = absurd (omega (arith, k))
process-encode (suc fuel) held last n logs (r ∷ rs) (h, hs) k =
    process-record fuel held last n logs r (encode_all rs) h
    ∙ ap (emit r.tid (counter_delta logs r.tid r.counters) r.time r.loads r.stores)
        (process-encode fuel held r.time n (put r.tid r.counters logs) rs hs (omega arith))

pub length-encode_all : (rs : List LogRecord) → length rs ≤ length (encode_all rs)
length-encode_all [] = omega arith
length-encode_all (r ∷ rs) = omega (
  arith,
  length-append r.counters (r.time ∷ (r.loads ++ (r.stores ++ encode_all rs))),
  length-append r.loads (r.stores ++ encode_all rs),
  length-append r.stores (encode_all rs),
  length-encode_all rs,
)

-- Whatever records of whole arrays the host writes behind its two words, the main loop reads each
-- of them back exactly, up to the end of the log or the first overflow.
pub process_log-encode :
    (held counter_width roi_count : ℕ) (rs : List LogRecord)
    → All (Fits (wmul counter_width roi_count)) rs
    → process_log held (counter_width ∷ roi_count ∷ encode_all rs) ≡ epochs [] rs
unfolding process_log
process_log-encode held counter_width roi_count rs h =
    process-encode (length (encode_all rs)) held held (wmul counter_width roi_count) [] rs h
      (length-encode_all rs)
