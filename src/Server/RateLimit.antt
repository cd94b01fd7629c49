-- ===== src/Server/RateLimit.antt =====
-- cp/internal/api/ratelimit.go: at most five logins in a window of a minute, for each address.
pub mod Windows
use qf.Common.{
  ℕ, ◌+◌, ◌-◌, ◌*◌, Bool, true, false, Option, none, some, List, [], ◌∷◌, Text, text_eq, ltb, leb,
  if◌then◌else◌,
}

abbrev pub login_max_attempts : ℕ
login_max_attempts = 5

-- time.Minute in nanoseconds.
abbrev pub login_window_dur : ℕ
login_window_dur = 60000000000

pub record LoginWindow : Type 0 where
  pub count : ℕ
  pub start : ℕ

abbrev pub Windows : Type 0
Windows = List (Text × LoginWindow)

unfoldable pub window_of : Text → Windows → Option LoginWindow
window_of ip [] = none
window_of ip ((j, w) ∷ m) = let rest = window_of ip m in if text_eq j ip then some w else rest

-- The time is monotonic, so a window never starts after `now`.
abbrev pub has_expired : ℕ → LoginWindow → Bool
has_expired now w = leb login_window_dur (now - w.start)

unfoldable pub prune : ℕ → Windows → Windows
prune now [] = []
prune now ((j, w) ∷ m) = let rest = prune now m in if has_expired now w then rest else (j, w) ∷ rest

unfoldable pub remove_window : Text → Windows → Windows
remove_window ip [] = []
remove_window ip ((j, w) ∷ m) =
    let rest = remove_window ip m in if text_eq j ip then rest else (j, w) ∷ rest

abbrev pub set_window : Text → LoginWindow → Windows → Windows
set_window ip w m = (ip, w) ∷ remove_window ip m

abbrev new_window : Text → ℕ → Windows → Windows × Bool
new_window ip now m = (set_window ip (record { count = 1; start = now }) (prune now m), true)

abbrev in_window : Text → ℕ → Windows → Option LoginWindow → Windows × Bool
in_window ip now m none = new_window ip now m
in_window ip now m (some w) =
    if has_expired now w
    then new_window ip now m
    else if leb login_max_attempts w.count
    then (m, false)
    else (set_window ip (record w { count = w.count + 1 }) m, true)

unfoldable pub allow : Text → ℕ → Windows → Windows × Bool
unfolding window_of prune remove_window
allow ip now m = in_window ip now m (window_of ip m)
