-- ===== src/Log/Tests.antt =====
-- Messages at the levels of include/libmctp.h: 3 for an error, 7 for debug output.
use ps_libmctp_win.Prelude.{ℕ, ◌≡◌, refl, true, false, none, some, List, [], ◌∷◌}
use ps_libmctp_win.Log.{ℤ, pos, leb_int, passed, initial, prlog, set_log_stdio, set_log_custom}

silent : (level : ℤ) (text : List ℕ) → prlog initial level text ≡ some []
unfolding prlog initial
silent level text = refl

errors_only : prlog (set_log_stdio (pos 3) initial) (pos 7) (1 ∷ []) ≡ some []
unfolding prlog set_log_stdio leb_int
errors_only = refl

-- The last setter decides, and a custom function gets every level.
passes_all :
    (old level : ℤ) (text : List ℕ)
    → prlog (set_log_custom true (set_log_stdio old initial)) level text
      ≡ some (passed level text ∷ [])
unfolding prlog set_log_custom
passes_all old level text = refl

missing_function :
    (level : ℤ) (text : List ℕ) → prlog (set_log_custom false initial) level text ≡ none
unfolding prlog set_log_custom
missing_function level text = refl
