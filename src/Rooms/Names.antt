-- ===== src/Rooms/Names.antt =====
-- The names under which rooms are kept.
use fubble.Base.{ℕ, ◌≡◌, refl, [], ◌∷◌, arith}
use fubble.Rooms.{
  Name, is_space, to_lower, remove_whitespaces, lower_case, remove_whitespaces_and_lower_case,
}

is_space-to_lower : (c : ℕ) → is_space (to_lower c) ≡ is_space c
unfolding is_space to_lower
is_space-to_lower c = ground arith

to_lower-to_lower : (c : ℕ) → to_lower (to_lower c) ≡ to_lower c
unfolding to_lower
to_lower-to_lower c = ground arith

-- A name that was cleaned once is not changed by cleaning it again: the name that the factory is
-- given for a room is the key under which the room's participants wait.
remove_whitespaces_and_lower_case_idem :
    (s : Name)
    → remove_whitespaces_and_lower_case (remove_whitespaces_and_lower_case s)
      ≡ remove_whitespaces_and_lower_case s
unfolding remove_whitespaces_and_lower_case remove_whitespaces lower_case
remove_whitespaces_and_lower_case_idem [] = refl
remove_whitespaces_and_lower_case_idem (c ∷ s) =
    ground
      (arith, remove_whitespaces_and_lower_case_idem s, is_space-to_lower c, to_lower-to_lower c)
