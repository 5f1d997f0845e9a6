-- ===== src/Ledger/Operations/Statuses.antt =====
-- The statuses of cross-domain messages (app/src/ledger.ts, `setMessageStatus`), and the order in
-- which they can follow each other.
use mathlib.Core.Path.{subst}
use op_cartesi.Base.{◌≡◌, refl, sym, ◌≢◌, Bool, true, false, Option, none, some, if◌then◌else◌}
use op_cartesi.Bytes.{Bytes, bytes_equal}
use op_cartesi.Bytes.Equal.{eq_of_bytes_equal}
use op_cartesi.Ledger.Types.{Status, successful, failed}
use op_cartesi.Ledger.Journal.Maps.{update}

-- A status that stays, the first run of a message, and the replay of one that failed.
pub data StatusOrder : Option Status → Option Status → Type 0 where
  unchanged : {s : Option Status} → StatusOrder s s
  decided : {s : Status} → StatusOrder none (some s)
  replayed : StatusOrder (some failed) (some successful)

pub StatusOrder-trans :
    {r s t : Option Status} → StatusOrder r s → StatusOrder s t → StatusOrder r t
StatusOrder-trans unchanged k = k
StatusOrder-trans decided unchanged = decided
StatusOrder-trans decided replayed = decided
StatusOrder-trans replayed unchanged = replayed

-- Success is the end of every message.
pub StatusOrder-successful : (s : Option Status) → StatusOrder s (some successful)
StatusOrder-successful none = decided
StatusOrder-successful (some successful) = unchanged
StatusOrder-successful (some failed) = replayed

-- A failure can follow whatever is no success.
pub StatusOrder-failed : (s : Option Status) → s ≢ some successful → StatusOrder s (some failed)
StatusOrder-failed none h = decided
StatusOrder-failed (some successful) h = absurd (h refl)
StatusOrder-failed (some failed) h = unchanged

-- Nothing follows success.
pub successful_stays : {t : Option Status} → StatusOrder (some successful) t → t ≡ some successful
successful_stays unchanged = refl

update_step :
    (b : Bool) (f : Bytes → Option Status) (k : Bytes) (s t : Option Status)
    → (b ≡ true → StatusOrder t s)
    → StatusOrder t (if b then s else t)
update_step true f k s t h = h refl
update_step false f k s t h = unchanged

-- One message's status moves on, and the others stay.
pub update-StatusOrder :
    (f : Bytes → Option Status) (key : Bytes) (s : Option Status)
    → StatusOrder (f key) s
    → (k : Bytes) → StatusOrder (f k) (update f key s k)
update-StatusOrder f key s h k =
    update_step (bytes_equal k key) f k s (f k)
      λ e. subst (λ j. StatusOrder (f j) s) (sym (eq_of_bytes_equal k key e)) h
