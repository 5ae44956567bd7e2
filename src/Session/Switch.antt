-- ===== src/Session/Switch.antt =====
-- The choice between two sessions in firmware/session.c.
use colorlight_i9_abletonlin.Base.{ℕ, ◌^◌, ◌<◌, ◌≡◌, ◌≢◌, true, false, arith, before_asymm}
use colorlight_i9_abletonlin.Base.Int64.{slt, neg64}
use colorlight_i9_abletonlin.Types.{LinkId}
use colorlight_i9_abletonlin.Session.{prefers_new}

-- Two devices that see one another's sessions, with opposite differences of ghost time, never both
-- leave their own for the other's. The difference is any `int64_t` but the least.
pub prefers_new_asymm :
    (diff : ℕ) (a b : LinkId)
    → diff < 2 ^ 64
    → diff ≢ 2 ^ 63
    → prefers_new diff a b ≡ true
    → prefers_new (neg64 diff) b a ≡ false
unfolding prefers_new slt
prefers_new_asymm diff a b h ne p = ground (arith, before_asymm a b)
