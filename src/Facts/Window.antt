-- ===== src/Facts/Window.antt =====
-- A fact's time window is an arc of the day's circle.
use arbiter_ai.Base.{ℕ, ◌+◌, ◌-◌, ◌%◌, ◌<◌, ◌≡◌, leb, arith}
use arbiter_ai.Facts.{in_window}

-- minutes that pass from one time of the day to another, through midnight if need be
abbrev pub elapsed : ℕ → ℕ → ℕ
elapsed from to = (to + 1440 - from) % 1440

-- A time lies in the window exactly if, going round the clock from the start, it comes no later
-- than the end. So a window that passes midnight covers both its parts and nothing else.
pub in_window-elapsed :
    (start end at : ℕ)
    → start < 1440
    → end < 1440
    → at < 1440
    → in_window start end at ≡ leb (elapsed start at) (elapsed start end)
unfolding in_window
in_window-elapsed start end at hs he ha = ground arith
