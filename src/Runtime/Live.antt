-- ===== src/Runtime/Live.antt =====
-- How many of the first `n` entries of the depth array are not zero.
use zray.Base.{ℕ, zero, suc, ◌+◌, ◌≤◌, ◌<◌, ◌≡◌, ◌≢◌, refl, arith, ◌==◌, if◌then◌else◌, update}

pub live : ℕ → (ℕ → ℕ) → ℕ
live zero d = 0
live (suc n) d = (if d n == 0 then 0 else 1) + live n d

pub live-le : (n : ℕ) (d : ℕ → ℕ) → live n d ≤ n
unfolding live
live-le zero d = omega arith
live-le (suc n) d = ground (arith, live-le n d)

-- A depth of zero leaves room.
pub live-lt : (n r : ℕ) (d : ℕ → ℕ) → r < n → d r ≡ 0 → live n d < n
unfolding live
live-lt zero r d h e = elim h [ ]
live-lt (suc n) r d h e = ground (arith, live-lt n r d, live-le n d)

pub live_above : (n r v : ℕ) (d : ℕ → ℕ) → n ≤ r → live n (update d r v) ≡ live n d
unfolding live
live_above zero r v d h = refl
live_above (suc n) r v d h = ground (arith, live_above n r v d)

-- Entry to a region that is not live adds one.
pub live_enter :
    (n r v : ℕ) (d : ℕ → ℕ) → r < n → d r ≡ 0 → v ≢ 0 → live n (update d r v) ≡ suc (live n d)
unfolding live
live_enter zero r v d h e k = elim h [ ]
live_enter (suc n) r v d h e k = ground (arith, live_enter n r v d, live_above n r v d)

-- The last exit takes one away.
pub live_leave : (n r : ℕ) (d : ℕ → ℕ) → r < n → d r ≢ 0 → suc (live n (update d r 0)) ≡ live n d
unfolding live
live_leave zero r d h k = elim h [ ]
live_leave (suc n) r d h k = ground (arith, live_leave n r d, live_above n r 0 d)

-- A change between two depths that are not zero keeps the number.
pub live_keep : (n r v : ℕ) (d : ℕ → ℕ) → d r ≢ 0 → v ≢ 0 → live n (update d r v) ≡ live n d
unfolding live
live_keep zero r v d k l = refl
live_keep (suc n) r v d k l = ground (arith, live_keep n r v d)

pub live-zero : (n : ℕ) → live n (λ r. 0) ≡ 0
unfolding live
live-zero zero = refl
live-zero (suc n) = ground (arith, live-zero n)
