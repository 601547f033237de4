-- ===== src/PostProcess/Leftover.antt =====
-- The host's log of a second run in the directory of a first: src/zray_dyn.cc appends to the file,
-- and src/post_process.cc reads one header.
use zray.Base.{ℕ, zero, suc, Option, none, some, List, [], ◌∷◌, ◌++◌}
use zray.Host.{Host}
use zray.PostProcess.{Epoch}

-- The same state with words in front of its log.
abbrev behind : List ℕ → Host → Host
behind old s = record s { log = old ++ s.log }

-- The thread of the epoch of number `i`.
abbrev pub thread_at : ℕ → List Epoch → Option ℕ
thread_at i [] = none
thread_at zero (e ∷ es) = some e.thread
thread_at (suc i) (e ∷ es) = thread_at i es
