-- ===== src/Slice.antt =====
-- Go slices of pointers: an array and how much of it the slice shows. `append` and the removal
-- `append(s[:n], s[n+1:]...)` write into the array in place, where other slices see it.
pub mod Laws
pub mod Pointers
pub mod Shift
pub mod Stale
pub mod Array
use peernet_core.Prelude.{
  ℕ, suc, ◌+◌, ◌-◌, ◌≤◌, List, [], ◌∷◌, ◌++◌, length, take, drop, set, if◌then◌else◌, ltb,
}

pub record Slice : Type 0 where
  -- the whole array: its length is the slice's capacity
  pub array : List ℕ
  pub len : ℕ

abbrev pub nil_slice : Slice
nil_slice = record { array = []; len = 0 }

-- What the slice shows.
abbrev pub items : Slice → List ℕ
items s = take s.len s.array

abbrev pub IsSlice : Slice → Type 0
IsSlice s = s.len ≤ length s.array

-- `append(s, x)`. A grown array has no spare room.
unfoldable pub append : Slice → ℕ → Slice
append s x =
    if ltb s.len (length s.array)
    then record { array = set s.array s.len x; len = suc s.len }
    else record { array = items s ++ x ∷ []; len = suc s.len }

-- The removal as the program writes it each time:
--   new := s[:n]; if n < len(s)-1 { new = append(new, s[n+1:]...) }; s = new
-- The elements behind n move down by one; the array's last shown place keeps its old value.
unfoldable pub remove_at : Slice → ℕ → Slice
remove_at s n =
    if ltb n (s.len - 1)
    then record {
      array = take n s.array ++ (drop (suc n) (items s) ++ drop (s.len - 1) s.array);
      len = s.len - 1;
    }
    else record s { len = n }
