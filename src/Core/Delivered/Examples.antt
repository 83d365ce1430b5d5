-- ===== src/Core/Delivered/Examples.antt =====
-- An index of 16 keys, and its theorem there.
use gtp_rs.Base.{ℕ, ◌≡◌, refl, true, false, List, [], ◌∷◌}
use gtp_rs.Core.Delivered.{new, insert_if_new, forget}
use gtp_rs.Core.Delivered.Window.{insert_all, insert_if_new-window}

-- Seventeen keys, with repetitions: the first one is forgotten.
abbrev keys : List ℕ
keys = 1 ∷ 2 ∷ 1 ∷ 3 ∷ 4 ∷ 5 ∷ 6 ∷ 7 ∷ 8 ∷ 9 ∷ 10 ∷ 11 ∷ 2 ∷ 12 ∷ 13 ∷ 14 ∷ 15 ∷ 16 ∷ 17 ∷ []

insert_if_new-window_example : (insert_if_new (insert_all (new 4) keys) 2).1 ≡ false
insert_if_new-window_example = insert_if_new-window 4 keys 2

forgotten : (insert_if_new (insert_all (new 4) keys) 1).1 ≡ true
unfolding insert_if_new forget new
forgotten = refl
